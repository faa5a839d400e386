-- ===== src/Atproto/Examples.antt =====
-- Runs of the URI parser and of the DID check.
use opake.Base.{◌≡◌, ◌↔◌, refl, true, codes, nat_eq}
use opake.Error.{ok}
use opake.Atproto.{
  AtUri, parse_at_uri, is_valid_did, is_valid_method_id, is_id_byte, is_method_byte, valid_id_bytes,
  has_double_colon, starts_with_colon, ends_with_colon, strip_prefix,
}
use opake.Atproto.Split.{split_once}
use opake.Atproto.Uris.{format_at_uri, IsWellFormed, parse_at_uri_iff}

abbrev document_uri : AtUri
document_uri = record {
  authority = codes "did:plc:abc";
  collection = codes "at.opake.document";
  rkey = codes "3k/x";
}

document_uri-IsWellFormed : IsWellFormed document_uri
document_uri-IsWellFormed = record {
  authority = refl;
  authority_slash = refl;
  collection = refl;
  collection_slash = refl;
  rkey = refl;
}

parse_at_uri_iff_example :
    (parse_at_uri (codes "at://did:plc:abc/at.opake.document/3k/x") ≡ ok document_uri) ↔ (
      (codes "at://did:plc:abc/at.opake.document/3k/x" ≡ format_at_uri document_uri)
      × IsWellFormed document_uri)
parse_at_uri_iff_example =
    parse_at_uri_iff (codes "at://did:plc:abc/at.opake.document/3k/x") document_uri

valid : is_valid_did (codes "did:plc:abc") ≡ true
unfolding is_valid_did is_valid_method_id strip_prefix split_once is_id_byte is_method_byte
    valid_id_bytes has_double_colon starts_with_colon ends_with_colon
valid = refl
