-- ===== src/Tid/Order.antt =====
-- The order of the record keys of tid.rs.
use opake.Base.{
  ℕ, zero, suc, ◌*◌, ◌/◌, ◌%◌, ◌^◌, ◌<◌, ◌≡◌, refl, Bool, true, ◌&&◌, nat_eq, nat_beq_iff, [], ◌∷◌,
  ◌++◌, Str, length, length-append, ltb, ltb→lt, all, sym, ◌∙◌, Bool-cases, inl, inr, arith,
}
use opake.Base.Order.{lex_less}
use opake.Tid.{byte_at, base32_sort, digits, encode_base32_sort, tid_from_micros}

length-digits : (n v : ℕ) → length (digits n v) ≡ n
unfolding digits
length-digits zero v = refl
length-digits (suc n) v = omega (
  arith,
  length-append (digits n (v / 32)) (byte_at base32_sort (v % 32) ∷ []),
  length-digits n (v / 32),
)

all_byte : (x : ℕ) (bs : Str) (j : ℕ) → all (ltb x) bs ≡ true → j < length bs → x < byte_at bs j
unfolding byte_at
all_byte x [] j h k = absurd (omega arith)
all_byte x (b ∷ bs) zero h k = ground arith
all_byte x (b ∷ bs) (suc j) h k = all_byte x bs j (ground arith) (omega arith)

ascending : Str → Bool
ascending [] = true
ascending (x ∷ xs) = all (ltb x) xs && ascending xs

byte_at_mono :
    (bs : Str) (i j : ℕ) → ascending bs ≡ true → i < j → j < length bs → byte_at bs i < byte_at bs j
unfolding byte_at ascending
byte_at_mono [] i j a h k = absurd (omega arith)
byte_at_mono (b ∷ bs) zero zero a h k = absurd (omega arith)
byte_at_mono (b ∷ bs) (suc i) zero a h k = absurd (omega arith)
byte_at_mono (b ∷ bs) zero (suc j) a h k = all_byte b bs j (ground arith) (omega arith)
byte_at_mono (b ∷ bs) (suc i) (suc j) a h k =
    byte_at_mono bs i j (ground arith) (omega arith) (omega arith)

alphabet-ascending : ascending base32_sort ≡ true
unfolding ascending
alphabet-ascending = refl

digit_mono : (i j : ℕ) → i < j → j < 32 → byte_at base32_sort i < byte_at base32_sort j
digit_mono i j h k = byte_at_mono base32_sort i j alphabet-ascending h k

lex_less-front :
    (s t u v : Str) → length s ≡ length t → lex_less s t ≡ true → lex_less (s ++ u) (t ++ v) ≡ true
lex_less-front [] [] u v l h = cc h
lex_less-front [] (b ∷ t) u v l h = absurd (omega arith)
lex_less-front (a ∷ s) [] u v l h = cc h
lex_less-front (a ∷ s) (b ∷ t) u v l h = elim (Bool-cases (ltb a b)) [
  | inl e ↦ ground (arith, e)
  | inr e ↦ ground (arith, e, lex_less-front s t u v (omega arith))
]

lex_less-back : (s u v : Str) → lex_less u v ≡ true → lex_less (s ++ u) (s ++ v) ≡ true
lex_less-back [] u v h = h
lex_less-back (a ∷ s) u v h = ground (arith, lex_less-back s u v h, nat_beq_iff a a)

pow32 : ℕ → ℕ
pow32 zero = 1
pow32 (suc n) = pow32 n * 32

digits_mono : (n v w : ℕ) → v < w → w < pow32 n → lex_less (digits n v) (digits n w) ≡ true
unfolding digits pow32
digits_mono zero v w h k = absurd (omega arith)
digits_mono (suc n) v w h k = elim (Bool-cases (ltb (v / 32) (w / 32))) [
  | inl e ↦
      lex_less-front (digits n (v / 32)) (digits n (w / 32)) _ _
        (length-digits n (v / 32) ∙ sym (length-digits n (w / 32)))
        (digits_mono n (v / 32) (w / 32) (ltb→lt (v / 32) (w / 32) e) (omega arith))
  | inr e ↦
      let q : v / 32 ≡ w / 32 = ground arith in
      let d = digit_mono (v % 32) (w % 32) (omega (arith, q)) (omega arith) in
      rw q (lex_less-back (digits n (w / 32)) _ _ (ground (arith, d)))
]

-- Of two timestamps below 2 ^ 54 microseconds the smaller has the smaller record key, compared
-- byte by byte, and the key has 13 bytes.
pub tid_from_micros-order :
    (t u : ℕ)
    → t < u
    → u < 2 ^ 54
    → (lex_less (tid_from_micros t) (tid_from_micros u) ≡ true) × (length (tid_from_micros t) ≡ 13)
unfolding tid_from_micros encode_base32_sort
tid_from_micros-order t u h k = (
  digits_mono 13 (t * 2 ^ 10 % 2 ^ 64) (u * 2 ^ 10 % 2 ^ 64) (omega arith)
      (unfold pow32 in omega arith),
  length-digits 13 (t * 2 ^ 10 % 2 ^ 64),
)
