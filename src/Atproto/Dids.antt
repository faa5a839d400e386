-- ===== src/Atproto/Dids.antt =====
-- The DID grammar of atproto.rs and the slashes of an AT-URI.
use opake.Base.{
  ℕ, ◌==◌, ◌≡◌, refl, true, false, ◌||◌, [], ◌∷◌, ◌++◌, Str, codes, is_empty, contains, arith,
  nat_eq, Option-cases, inl, inr, all,
}
use opake.Atproto.{
  split_once, split_once-some, strip_prefix, is_method_byte, is_hexdigit, is_id_byte,
  valid_id_bytes, is_valid_method_id, is_valid_did,
}
use opake.Atproto.Uris.{strip_prefix-some}

contains-append : (a b : Str) (c : ℕ) → contains (a ++ b) c ≡ (contains a c || contains b c)
contains-append [] b c = refl
contains-append (x ∷ a) b c = ground (arith, contains-append a b c)

method_no_slash : (m : Str) → all is_method_byte m ≡ true → contains m b'/' ≡ false
unfolding is_method_byte
method_no_slash [] h = refl
method_no_slash (c ∷ m) h = ground (arith, method_no_slash m)

id_byte_lem : (c : ℕ) → is_id_byte c ≡ true → (c == b'/') ≡ false
unfolding is_id_byte
id_byte_lem c h = ground arith

hexdigit_lem : (c : ℕ) → is_hexdigit c ≡ true → (c == b'/') ≡ false
unfolding is_hexdigit
hexdigit_lem c h = ground arith

id_no_slash : (s : Str) → valid_id_bytes s ≡ true → contains s b'/' ≡ false
unfolding valid_id_bytes
id_no_slash [] h = refl
id_no_slash (c ∷ []) h = ground (arith, id_byte_lem c)
id_no_slash (c ∷ x ∷ []) h = ground (arith, id_byte_lem c, id_no_slash (x ∷ []))
id_no_slash (c ∷ x ∷ y ∷ s) h =
    ground
      (arith, id_byte_lem c, hexdigit_lem x, hexdigit_lem y, id_no_slash (x ∷ y ∷ s), id_no_slash s)

method_id_no_slash :
    (m i : Str)
    → is_valid_method_id m i ≡ true
    → (contains m b'/' ≡ false) × (contains i b'/' ≡ false)
unfolding is_valid_method_id
method_id_no_slash m i h = ground (arith, method_no_slash m, id_no_slash i)

did_parts :
    (did : Str)
    → is_valid_did did ≡ true
    → (m : Str) × (i : Str) × (did ≡ codes "did:" ++ (m ++ b':' ∷ i))
      × (is_valid_method_id m i ≡ true)
unfolding is_valid_did
did_parts did h = elim (Option-cases (strip_prefix (codes "did:") did)) [
  | inl e ↦ ground arith
  | inr (rest, e) ↦ elim (Option-cases (split_once b':' rest)) [
    | inl e' ↦ ground arith
    | inr ((m, i), e') ↦ (
      m,
      i,
      ground (arith, strip_prefix-some (codes "did:") did rest e, split_once-some b':' rest m i e'),
      ground arith,
    )
  ]
]

-- A valid DID holds no slash and is not empty.
pub did_no_slash :
    (did : Str) → is_valid_did did ≡ true → (contains did b'/' ≡ false) × (is_empty did ≡ false)
did_no_slash did h =
    let (m, i, e, v) = did_parts did h in
    ground (arith, e, contains-append m (b':' ∷ i) b'/', method_id_no_slash m i v)
