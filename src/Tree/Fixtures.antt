-- ===== src/Tree/Fixtures.antt =====
-- A small tree for the runs: the root lists a directory, which lists another, which lists the root.
use opake.Base.{true, false, Option, none, some, List, [], ◌∷◌, Str, codes}
use opake.Records.{EncryptedMetadata, new_entry, Directory, direct}
use opake.Tree.{DirectoryInfo, DirectoryTree}

abbrev pub no_metadata : EncryptedMetadata
no_metadata = record { ciphertext = record { encoded = [] }; nonce = record { encoded = [] } }

abbrev pub info : List Str → DirectoryInfo
info entries = record {
  name = [];
  opake_version = 1;
  key_wrapping = direct [];
  encrypted_metadata = no_metadata;
  entries = entries;
  supersedes_uri = none;
  lineage = none;
  is_workspace_root = false;
}

abbrev pub root : Str
root = codes "at://d/at.opake.directory/self"

abbrev pub album : Str
album = codes "at://d/at.opake.directory/a"

abbrev pub nested : Str
nested = codes "at://d/at.opake.directory/b"

abbrev pub small : DirectoryTree
small = record {
  directories =
      (root, info (album ∷ [])) ∷ (album, info (nested ∷ [])) ∷ (nested, info (root ∷ [])) ∷ [];
  placeholders = [];
  root_uri = some root;
}

abbrev pub record_of : Option Str → Option Str → List Str → Directory
record_of prior lineage [] = record {
  opake_version = 1;
  key_wrapping = direct [];
  encrypted_metadata = no_metadata;
  entries = [];
  supersedes = prior;
  supersedes_cid = none;
  lineage = lineage;
  workspace_id = none;
  is_workspace_root = true;
  created_at = [];
  modified_at = none;
}
record_of prior lineage (u ∷ us) = record (record_of prior lineage us) {
  entries = new_entry u [] ∷ (record_of prior lineage us).entries;
}
