-- ===== src/Records.antt =====
-- records/ of crates/opake-core (defs.rs, directory.rs, keyring.rs, classify.rs) and the wire shapes
-- of crates/opake-crypto/src/wire.rs: the records that the directory tree and the chains are made of.
use opake.Base.{
  ℕ, Bool, true, false, Option, List, [], Str, codes, ◌==◌, str_eq, ltb, is_empty, if◌then◌else◌,
}
use opake.Error.{Result, ok, err, invalid_record, message}

abbrev pub schema_version : ℕ
schema_version = 1

-- `{ "$bytes": "<base64>" }`; decoding is the base64 library's and stays a parameter.
pub record AtBytes : Type 0 where
  pub encoded : Str

pub record WrappedKey : Type 0 where
  pub did : Str
  pub ciphertext : AtBytes
  pub algo : Str

pub record EncryptedMetadata : Type 0 where
  pub ciphertext : AtBytes
  pub nonce : AtBytes

pub record KeyringRef : Type 0 where
  pub keyring : Str
  pub wrapped_content_key : AtBytes
  pub rotation : ℕ

pub data KeyWrapping : Type 0 where
  direct : List WrappedKey → KeyWrapping
  keyring : KeyringRef → KeyWrapping

pub data Role : Type 0 where
  manager editor viewer : Role
  unknown : Str → Role

abbrev pub is_manager_role : Role → Bool
is_manager_role manager = true
is_manager_role _ = false

-- `PartialEq` of `Role`.
unfoldable pub same_role : Role → Role → Bool
same_role manager manager = true
same_role editor editor = true
same_role viewer viewer = true
same_role (unknown s) (unknown t) = s == t
same_role _ _ = false

unfoldable pub from_wire : Str → Role
from_wire s =
    if s == codes "manager"
    then manager
    else if s == codes "editor"
    then editor
    else if s == codes "viewer"
    then viewer
    else unknown s

pub record KeyringMember : Type 0 where
  pub did : Str
  pub role : Role
  pub wrapped_key : Option WrappedKey
  pub unverified_key_approval : Option AtBytes

pub record KeyHistoryEntry : Type 0 where
  pub rotation : ℕ
  pub members : List KeyringMember

pub record Keyring : Type 0 where
  pub opake_version : ℕ
  pub algo : Str
  pub members : List KeyringMember
  pub rotation : ℕ
  pub key_history : List KeyHistoryEntry
  pub encrypted_metadata : EncryptedMetadata
  pub supersedes : Option Str
  pub supersedes_cid : Option Str
  pub lineage : Option Str
  pub created_at : Str
  pub modified_at : Option Str

-- One entry of a listing: the target's URI and the CID that the writer saw.
pub record ListingEntry : Type 0 where
  pub target : Str
  pub target_cid : Str

abbrev pub new_entry : Str → Str → ListingEntry
new_entry target cid = record { target = target; target_cid = cid }

-- The sentinel of an entry in the legacy shape.
pub has_legacy_empty_cid : ListingEntry → Bool
has_legacy_empty_cid e = is_empty e.target_cid

pub record Directory : Type 0 where
  pub opake_version : ℕ
  pub key_wrapping : KeyWrapping
  pub encrypted_metadata : EncryptedMetadata
  pub entries : List ListingEntry
  pub supersedes : Option Str
  pub supersedes_cid : Option Str
  pub lineage : Option Str
  pub workspace_id : Option Str
  pub is_workspace_root : Bool
  pub created_at : Str
  pub modified_at : Option Str

pub data UnreadableReason : Type 0 where
  corrupt needs_newer_client : UnreadableReason

pub record UnreadableRef : Type 0 where
  pub uri : Option Str
  pub reason : UnreadableReason

-- Refuses a record written by a newer schema version.
unfoldable pub check_version : ℕ → Result (Unit {0})
check_version v =
    if ltb schema_version v
    then err (
        invalid_record (
          message
            "record schema version {record_version} is newer than supported version {SCHEMA_VERSION}"
            []))
    else ok tt
