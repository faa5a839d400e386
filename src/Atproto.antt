-- ===== src/Atproto.antt =====
-- atproto.rs of crates/opake-core: AT-URIs and the DID grammar. Texts are lists of bytes.
pub mod Split
pub mod Uris
pub mod Dids
mod Examples
pub use Split.{split_once-some, split_once-join}
unfoldable pub use Split.{split_once}
use opake.Base.{
  ℕ, ◌≡◌, Bool, true, false, ◌&&◌, ◌||◌, not, Option, none, some, List, [], ◌∷◌, ◌++◌, Str, codes,
  ◌==◌, is_empty, all, if◌then◌else◌, nat_eq, leb,
}
use opake.Error.{Result, ok, err, invalid_record, message}

pub record AtUri : Type 0 where
  pub authority : Str
  pub collection : Str
  pub rkey : Str

-- Rust's `strip_prefix`.
unfoldable pub strip_prefix : Str → Str → Option Str
strip_prefix [] s = some s
strip_prefix (c ∷ p) [] = none
strip_prefix (c ∷ p) (x ∷ s) = if c == x then strip_prefix p s else none

abbrev pub bad_segments : Str → Result AtUri
bad_segments uri = err (
    invalid_record
      (message "AT-URI must have exactly 3 segments (authority/collection/rkey): {uri}" (uri ∷ [])))

-- `splitn(3, '/')` cuts at the first two slashes; the third part keeps any further one.
unfoldable pub parse_segments : Str → Str → Result AtUri
parse_segments uri rest = elim (split_once b'/' rest) [
  | none ↦ bad_segments uri
  | some (authority, more) ↦ elim (split_once b'/' more) [
    | none ↦ bad_segments uri
    | some (collection, rkey) ↦
        if is_empty authority || (is_empty collection || is_empty rkey)
        then bad_segments uri
        else ok (record { authority = authority; collection = collection; rkey = rkey })
  ]
]

unfoldable pub parse_at_uri : Str → Result AtUri
parse_at_uri uri = elim (strip_prefix (codes "at://") uri) [
  | none ↦ err (invalid_record (message "not an AT-URI (missing at:// prefix): {uri}" (uri ∷ [])))
  | some rest ↦ parse_segments uri rest
]

abbrev in_range : ℕ → ℕ → ℕ → Bool
in_range lo hi c = leb lo c && leb c hi

-- The test of the method's name: lowercase letters and digits.
is_method_byte : ℕ → Bool
is_method_byte c = in_range b'a' b'z' c || in_range b'0' b'9' c

is_hexdigit : ℕ → Bool
is_hexdigit c = in_range b'0' b'9' c || (in_range b'a' b'f' c || in_range b'A' b'F' c)

is_id_byte : ℕ → Bool
is_id_byte c =
    in_range b'a' b'z' c
    || (in_range b'A' b'Z' c
        || (in_range b'0' b'9' c || (c == b'.' || (c == b'-' || (c == b'_' || c == b':')))))

-- The loop over the identifier: an escape takes two hexadecimal digits.
valid_id_bytes : Str → Bool
valid_id_bytes [] = true
valid_id_bytes (c ∷ []) = if c == b'%' then false else is_id_byte c
valid_id_bytes (c ∷ high ∷ []) =
    if c == b'%' then false else is_id_byte c && valid_id_bytes (high ∷ [])
valid_id_bytes (c ∷ high ∷ low ∷ rest) =
    let escaped = is_hexdigit high && (is_hexdigit low && valid_id_bytes rest) in
    let plain = is_id_byte c && valid_id_bytes (high ∷ low ∷ rest) in
    if c == b'%' then escaped else plain

-- `id.contains("::")`.
has_double_colon : Str → Bool
has_double_colon [] = false
has_double_colon (c ∷ []) = false
has_double_colon (c ∷ x ∷ s) = (c == b':' && x == b':') || has_double_colon (x ∷ s)

starts_with_colon : Str → Bool
starts_with_colon [] = false
starts_with_colon (c ∷ s) = c == b':'

ends_with_colon : Str → Bool
ends_with_colon [] = false
ends_with_colon (c ∷ []) = c == b':'
ends_with_colon (c ∷ x ∷ s) = ends_with_colon (x ∷ s)

pub is_valid_method_id : Str → Str → Bool
is_valid_method_id method id =
    not (is_empty method || (is_empty id || (starts_with_colon id || ends_with_colon id)))
    && (all is_method_byte method && (valid_id_bytes id && not (has_double_colon id)))

unfoldable pub is_valid_did : Str → Bool
is_valid_did did = elim (strip_prefix (codes "did:") did) [
  | none ↦ false
  | some rest ↦ elim (split_once b':' rest) [
    | none ↦ false
    | some (method, id) ↦ is_valid_method_id method id
  ]
]
