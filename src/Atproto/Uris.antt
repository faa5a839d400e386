-- ===== src/Atproto/Uris.antt =====
-- `parse_at_uri` of atproto.rs, and URIs written from their parts.
use opake.Base.{
  ◌≡◌, ◌↔◌, ◌∙◌, ap, refl, false, some, [], ◌∷◌, ◌++◌, Str, codes, is_empty, contains, arith,
  nat_eq, nat_beq_iff, Option-cases, inl, inr,
}
use opake.Error.{ok}
use opake.Atproto.{
  AtUri, split_once, split_once-some, split_once-join, strip_prefix, parse_segments, parse_at_uri,
}

-- `format!("at://{authority}/{collection}/{rkey}")`.
abbrev pub format_at_uri : AtUri → Str
format_at_uri u = codes "at://" ++ (u.authority ++ b'/' ∷ (u.collection ++ b'/' ∷ u.rkey))

pub record IsWellFormed (u : AtUri) : Type 0 where
  pub authority : is_empty u.authority ≡ false
  pub authority_slash : contains u.authority b'/' ≡ false
  pub collection : is_empty u.collection ≡ false
  pub collection_slash : contains u.collection b'/' ≡ false
  pub rkey : is_empty u.rkey ≡ false

strip_prefix-append : (p s : Str) → strip_prefix p (p ++ s) ≡ some s
unfolding strip_prefix
strip_prefix-append [] s = refl
strip_prefix-append (c ∷ p) s = ground (arith, strip_prefix-append p s)

pub strip_prefix-some : (p s rest : Str) → strip_prefix p s ≡ some rest → s ≡ p ++ rest
unfolding strip_prefix
strip_prefix-some [] s rest h = cc
strip_prefix-some (c ∷ p) [] rest h = cc
strip_prefix-some (c ∷ p) (x ∷ s) rest h =
    ground (arith, nat_beq_iff c x, strip_prefix-some p s rest)

-- A URI written from well-formed parts is parsed back into those parts.
pub parse_at_uri-format : (u : AtUri) → IsWellFormed u → parse_at_uri (format_at_uri u) ≡ ok u
unfolding parse_at_uri parse_segments
parse_at_uri-format u h = ground (
  arith,
  strip_prefix-append (codes "at://") (u.authority ++ b'/' ∷ (u.collection ++ b'/' ∷ u.rkey)),
  split_once-join b'/' u.authority (u.collection ++ b'/' ∷ u.rkey) h.authority_slash,
  split_once-join b'/' u.collection u.rkey h.collection_slash,
)

parse_segments_sound :
    (uri rest : Str) (u : AtUri)
    → parse_segments uri rest ≡ ok u
    → (rest ≡ u.authority ++ b'/' ∷ (u.collection ++ b'/' ∷ u.rkey)) × IsWellFormed u
unfolding parse_segments
parse_segments_sound uri rest u h = elim (Option-cases (split_once b'/' rest)) [
  | inl e ↦ ground arith
  | inr ((a, more), e) ↦ elim (Option-cases (split_once b'/' more)) [
    | inl e' ↦ ground arith
    | inr ((c, k), e') ↦
        ground (arith, split_once-some b'/' rest a more e, split_once-some b'/' more c k e')
  ]
]

-- A URI that is accepted is the one written from the parsed parts, and the parts are well formed.
pub parse_at_uri_sound :
    (uri : Str) (u : AtUri) → parse_at_uri uri ≡ ok u → (uri ≡ format_at_uri u) × IsWellFormed u
unfolding parse_at_uri
parse_at_uri_sound uri u h = elim (Option-cases (strip_prefix (codes "at://") uri)) [
  | inl e ↦ ground arith
  | inr (rest, e) ↦
      let parsed : parse_segments uri rest ≡ ok u = ground arith in
      ground (
        arith,
        strip_prefix-some (codes "at://") uri rest e,
        parse_segments_sound uri rest u parsed,
      )
]

-- A URI is parsed into some parts exactly if it is the one written from them and the parts are
-- well formed.
pub parse_at_uri_iff :
    (uri : Str) (u : AtUri) → (parse_at_uri uri ≡ ok u) ↔ ((uri ≡ format_at_uri u) × IsWellFormed u)
parse_at_uri_iff uri u =
    (parse_at_uri_sound uri u, λ (e, w). ap parse_at_uri e ∙ parse_at_uri-format u w)
