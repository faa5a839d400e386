-- ===== src/Workspace/Examples.antt =====
-- A workspace of one member, at the URI that its first key derives.
use opake.Base.{◌≡◌, refl, ℕ, none, some, [], ◌∷◌, Str, codes, str_eq}
use opake.Records.{Keyring, KeyringMember, WrappedKey, editor}
use opake.Workspace.{KeyringCrypto, manager_dids_from_keyring}

abbrev wrap : WrappedKey
wrap = record { did = codes "me"; ciphertext = record { encoded = [] }; algo = [] }

-- Every wrap holds the key 7, whose tag is `r`.
abbrev pub crypto : KeyringCrypto ℕ ℕ
crypto = record {
  unwrap_key = λ keys w anchor version. some 7;
  derive_workspace_identity_tag = λ key authority. codes "r";
  decrypt_metadata = λ key m anchor. none;
}

abbrev pub me : KeyringMember
me = record {
  did = codes "me";
  role = editor;
  wrapped_key = some wrap;
  unverified_key_approval = none;
}

abbrev pub genesis : Keyring
genesis = record {
  opake_version = 1;
  algo = [];
  members = me ∷ [];
  rotation = 0;
  key_history = [];
  encrypted_metadata = record {
    ciphertext = record { encoded = [] };
    nonce = record { encoded = [] };
  };
  supersedes = none;
  supersedes_cid = none;
  lineage = none;
  created_at = [];
  modified_at = none;
}

abbrev pub genesis_uri : Str
genesis_uri = codes "at://d/k/r"

no_manager : manager_dids_from_keyring genesis ≡ []
unfolding manager_dids_from_keyring
no_manager = refl
