-- ===== src/Additivity/Examples.antt =====
-- Two directory records for the additivity check: an editor's supersede that advances one entry.
use opake.Base.{
  ◌≡◌, ◌↔◌, false, ◌==◌, str_eq, Option, none, some, List, [], ◌∷◌, Str, codes, insert_all, All,
  if◌then◌else◌,
}
use opake.Error.{ok}
use opake.Records.{ListingEntry, new_entry, Directory, direct}
use opake.Additivity.{verify_directory_additivity}
use opake.Additivity.Exact.{IsAccepted, verify_directory_additivity_iff}

abbrev listing : Option Str → List ListingEntry → Directory
listing prior entries = record {
  opake_version = 1;
  key_wrapping = direct [];
  encrypted_metadata = record {
    ciphertext = record { encoded = [] };
    nonce = record { encoded = [] };
  };
  entries = entries;
  supersedes = prior;
  supersedes_cid = none;
  lineage = none;
  workspace_id = none;
  is_workspace_root = false;
  created_at = [];
  modified_at = none;
}

abbrev old_uri : Str
old_uri = codes "at://did:plc:ann/at.opake.directory/1"

-- `doc2` supersedes `doc1`.
abbrev heads : Str → Option Str
heads u = if u == codes "doc2" then some (codes "doc1") else none

abbrev records : List (Str × Directory)
records =
    (old_uri, listing none (new_entry (codes "doc1") [] ∷ []))
    ∷ (
      codes "at://did:plc:bob/at.opake.directory/2",
      listing (some old_uri) (new_entry (codes "doc2") [] ∷ []),
    )
    ∷ []

verify_directory_additivity_iff_example :
    (verify_directory_additivity (λ did. false) heads records ≡ ok tt)
    ↔ All (IsAccepted (λ did. false) heads (insert_all [] records)) records
verify_directory_additivity_iff_example =
    verify_directory_additivity_iff (λ did. false) heads records
