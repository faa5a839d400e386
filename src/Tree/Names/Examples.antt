-- ===== src/Tree/Names/Examples.antt =====
-- Names by a cipher that keeps the plaintext.
use opake.Base.{
  ◌≡◌, refl, some, [], ◌∷◌, Str, codes, ◌==◌, str_eq, str_beq, option_eq, unwrap_or, get,
  if◌then◌else◌,
}
use opake.Tree.{root_directory_name}
use opake.Tree.Fixtures.{small, album, nested, info}
use opake.Tree.Names.{Crypto, decrypt_names_with_group_keys, decrypt_directory_name}
use opake.Tree.Names.Agree.{full_ctx, decrypt_names_agree}

abbrev open_crypto : Crypto Str Str
open_crypto = record {
  unwrap_key = λ w k v. some k;
  unwrap_content_key = λ w k. some k;
  decrypt_metadata = λ k m lineage. some lineage;
}

album_found : get small.directories album ≡ some (info (nested ∷ []))
unfolding get str_beq
album_found = refl

decrypt_names_agree_example :
    get
      (decrypt_names_with_group_keys open_crypto small (codes "d") (codes "k") []).directories
      album
    ≡ some (record (info (nested ∷ [])) {
      name =
          (if small.root_uri == some album
            then root_directory_name
            else unwrap_or
                (decrypt_directory_name open_crypto album
                  (info (nested ∷ []))
                  (full_ctx open_crypto (codes "d") (codes "k") []))
                (codes "?"));
    })
decrypt_names_agree_example =
    decrypt_names_agree open_crypto (codes "d") (codes "k") [] small album (info (nested ∷ []))
      album_found
