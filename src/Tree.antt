-- ===== src/Tree.antt =====
-- directories/tree.rs of crates/opake-core: the in-memory directory tree. This file has its state and
-- its getters; the children have the operations.
pub mod Roots
pub mod Names
pub mod Apply
pub mod Parents
pub mod Descend
pub mod Cached
pub mod Resolve
pub mod Fixtures
use opake.Base.{
  ℕ, Bool, true, false, ◌&&◌, ◌||◌, not, Option, none, some, List, [], ◌∷◌, Str, codes, ◌==◌,
  str_eq, any, contains, ◌≡◌, is_some, unwrap_or, map, Map, get, contains_key, keys, values,
  if◌then◌else◌,
}
use opake.Error.{Result, ok, err, Message, message}
use opake.Atproto.{AtUri, parse_at_uri}
use opake.Records.{KeyWrapping, EncryptedMetadata, UnreadableReason, Directory}

pub data EntryKind : Type 0 where
  document directory : EntryKind

abbrev pub is_directory_kind : Option EntryKind → Bool
is_directory_kind (some EntryKind.directory) = true
is_directory_kind _ = false

pub data TreeChange : Type 0 where
  inserted updated removed : Str → TreeChange
  no_op : TreeChange

unfoldable pub is_effective : TreeChange → Bool
is_effective TreeChange.no_op = false
is_effective _ = true

pub change_uri : TreeChange → Option Str
change_uri (TreeChange.inserted uri) = some uri
change_uri (TreeChange.updated uri) = some uri
change_uri (TreeChange.removed uri) = some uri
change_uri TreeChange.no_op = none

pub record DirectoryInfo : Type 0 where
  pub name : Str
  pub opake_version : ℕ
  pub key_wrapping : KeyWrapping
  pub encrypted_metadata : EncryptedMetadata
  pub entries : List Str
  pub supersedes_uri : Option Str
  pub lineage : Option Str
  pub is_workspace_root : Bool

pub record PlaceholderNode : Type 0 where
  pub reason : UnreadableReason
  pub entries : List Str

pub record DirectoryTree : Type 0 where
  pub directories : Map Str DirectoryInfo
  pub placeholders : Map Str PlaceholderNode
  pub root_uri : Option Str

abbrev pub document_collection : Str
document_collection = codes "at.opake.document"

abbrev pub directory_collection : Str
directory_collection = codes "at.opake.directory"

abbrev pub root_directory_rkey : Str
root_directory_rkey = codes "self"

abbrev pub root_directory_name : Str
root_directory_name = codes "/"

abbrev pub placeholder_display_name : Str
placeholder_display_name = codes "Unreadable item"

kind_of : Result AtUri → Option EntryKind
kind_of (err e) = none
kind_of (ok u) =
    if u.collection == document_collection
    then some EntryKind.document
    else if u.collection == directory_collection
    then some EntryKind.directory
    else none

-- The kind of an entry, by the collection segment of its URI.
unfoldable pub entry_kind_from_uri : Str → Option EntryKind
unfolding kind_of
entry_kind_from_uri uri = kind_of (parse_at_uri uri)

rkey_is_self : Result AtUri → Bool
rkey_is_self (ok u) = u.rkey == root_directory_rkey
rkey_is_self (err e) = false

unfoldable pub has_self_rkey : Str → Bool
unfolding rkey_is_self
has_self_rkey uri = rkey_is_self (parse_at_uri uri)

-- A record projected into the tree, its name not yet decrypted.
unfoldable pub info_of : Directory → DirectoryInfo
info_of dir = record {
  name = [];
  opake_version = dir.opake_version;
  key_wrapping = dir.key_wrapping;
  encrypted_metadata = dir.encrypted_metadata;
  entries = map (λ e. e.target) dir.entries;
  supersedes_uri = dir.supersedes;
  lineage = dir.lineage;
  is_workspace_root = dir.is_workspace_root;
}

-- The lineage anchor: the declared lineage, or the record's own URI.
abbrev pub anchor : Str → DirectoryInfo → Str
anchor uri info = unwrap_or info.lineage uri

-- The readable record first, then the placeholder with its preserved children.
unfoldable pub entries_for : DirectoryTree → Str → Option (List Str)
entries_for t uri = elim (get t.directories uri) [
  | some info ↦ some info.entries
  | none ↦ elim (get t.placeholders uri) [ some p ↦ some p.entries | none ↦ none ]
]

unfoldable pub directory_name : DirectoryTree → Str → Option Str
directory_name t uri = elim (get t.directories uri) [
  | some info ↦ some info.name
  | none ↦ elim (get t.placeholders uri) [ some p ↦ some placeholder_display_name | none ↦ none ]
]

unfoldable pub is_directory : DirectoryTree → Str → Bool
is_directory t uri = contains_key t.directories uri || contains_key t.placeholders uri

unfoldable pub is_placeholder : DirectoryTree → Str → Bool
is_placeholder t uri = contains_key t.placeholders uri

-- A URI is never both a readable record and a placeholder.
pub record IsWellFormed (t : DirectoryTree) : Type 0 where
  pub disjoint :
      (uri : Str) → (contains_key t.directories uri && contains_key t.placeholders uri) ≡ false
