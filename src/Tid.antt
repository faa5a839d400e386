-- ===== src/Tid.antt =====
-- tid.rs of crates/opake-core: record keys from a microsecond timestamp.
pub mod Order
mod Examples
use opake.Base.{
  ℕ, zero, suc, ◌*◌, ◌/◌, ◌%◌, ◌^◌, List, [], ◌∷◌, ◌++◌, Str, codes, Option, none, some,
}

abbrev pub base32_sort : Str
base32_sort = codes "234567abcdefghijklmnopqrstuvwxyz"

-- `s[i]`, for an index in range.
pub byte_at : Str → ℕ → ℕ
byte_at [] i = 0
byte_at (b ∷ bs) zero = b
byte_at (b ∷ bs) (suc i) = byte_at bs i

-- `n` digits; the loop fills the array from its last place.
pub digits : ℕ → ℕ → List ℕ
digits zero value = []
digits (suc n) value = digits n (value / 32) ++ byte_at base32_sort (value % 32) ∷ []

pub encode_base32_sort : ℕ → Str
encode_base32_sort value = digits 13 value

-- The shift drops the bits over 64.
pub tid_from_micros : ℕ → Str
tid_from_micros timestamp_micros = encode_base32_sort (timestamp_micros * 2 ^ 10 % 2 ^ 64)

pub uri_with_tid : Str → Str → Str → Str
uri_with_tid did collection tid =
    codes "at://" ++ did ++ codes "/" ++ collection ++ codes "/" ++ tid
