-- ===== src/Tree/Apply.antt =====
-- The incremental changes of the tree: deletes, unreadable references and record deltas, as the
-- event stream and the snapshots bring them. The decryption of one name is the argument `decrypt`
-- (`Names.decrypt_directory_name` at the caller's context).
pub mod Placeholders
pub mod Deltas
pub mod Lineage
mod Examples
use opake.Base.{
  ℕ, suc, ◌+◌, Bool, true, false, ◌&&◌, ◌||◌, not, Option, none, some, List, [], ◌∷◌, Str, codes,
  ◌==◌, str_eq, option_eq, any, contains, is_some, unwrap_or, Map, get, contains_key, insert,
  remove, values, if◌then◌else◌,
}
use opake.Records.{Directory, UnreadableRef}
use opake.Tree.{
  DirectoryInfo, PlaceholderNode, DirectoryTree, TreeChange, EntryKind, entry_kind_from_uri,
  is_directory_kind, has_self_rkey, info_of, root_directory_name,
}

unfoldable pub apply_directory_delete : DirectoryTree → Str → DirectoryTree × TreeChange
apply_directory_delete t uri =
    if contains_key t.directories uri || contains_key t.placeholders uri
    then (
      record {
        directories = remove t.directories uri;
        placeholders = remove t.placeholders uri;
        root_uri = (if t.root_uri == some uri then none else t.root_uri);
      },
      TreeChange.removed uri,
    )
    else (t, TreeChange.no_op)

-- Some readable directory or placeholder lists the URI.
pub is_referenced : DirectoryTree → Str → Bool
is_referenced t uri =
    any (λ (p : Str × DirectoryInfo). contains p.1.entries uri) t.directories
    || any (λ (p : Str × PlaceholderNode). contains p.1.entries uri) t.placeholders

-- The children that are kept: of the readable record, else of the placeholder before it, else none.
pub preserved_entries : Option DirectoryInfo → Option PlaceholderNode → List Str
preserved_entries (some info) p = info.entries
preserved_entries none (some p) = p.entries
preserved_entries none none = []

degrade : DirectoryTree → Str → UnreadableRef → DirectoryTree
degrade t uri reference = record t {
  directories = remove t.directories uri;
  placeholders = insert t.placeholders uri (record {
    reason = reference.reason;
    entries = preserved_entries (get t.directories uri) (get t.placeholders uri);
  });
}

-- The flag says whether a visible placeholder came of it.
pub apply_unreadable_ref : DirectoryTree → UnreadableRef → DirectoryTree × Bool
apply_unreadable_ref t reference = elim reference.uri [
  | none ↦ (t, false)
  | some uri ↦
      if is_directory_kind (entry_kind_from_uri uri) && is_referenced t uri
      then (degrade t uri reference, true)
      else (t, false)
]

pub record UnreadableTally : Type 0 where
  pub placeholders : ℕ
  pub count_only : ℕ

abbrev tally : UnreadableTally → Bool → UnreadableTally
tally n true = record n { placeholders = suc n.placeholders }
tally n false = record n { count_only = suc n.count_only }

apply_refs : DirectoryTree → UnreadableTally → List UnreadableRef → DirectoryTree × UnreadableTally
apply_refs t n [] = (t, n)
apply_refs t n (r ∷ refs) =
    let (t', visible) = apply_unreadable_ref t r in apply_refs t' (tally n visible) refs

pub apply_unreadable_refs : DirectoryTree → List UnreadableRef → DirectoryTree × UnreadableTally
apply_unreadable_refs t refs = apply_refs t (record { placeholders = 0; count_only = 0 }) refs

-- The record becomes the root, and its name the root's.
pub make_root : DirectoryTree → Str → DirectoryInfo → DirectoryTree
make_root t uri info = record t {
  directories = insert t.directories uri (record info { name = root_directory_name });
  root_uri = some uri;
}

-- The root advances when the record supersedes the current root.
pub advance_root : DirectoryTree → Str → DirectoryInfo → DirectoryTree
advance_root t uri info = elim info.supersedes_uri [
  | none ↦ t
  | some prior ↦ if t.root_uri == some prior then make_root t uri info else t
]

-- With no root set, a flagged record or one at rkey `self` becomes it.
pub adopt_root : DirectoryTree → Str → DirectoryInfo → DirectoryTree
adopt_root t uri info =
    if not (is_some t.root_uri) && (info.is_workspace_root || has_self_rkey uri)
    then make_root t uri info
    else t

module _ (decrypt : Str → DirectoryInfo → Option Str) where
  -- The projected record with its name.
  pub delta_info : Str → Directory → DirectoryInfo
  delta_info uri dir = record (info_of dir) {
    name = unwrap_or (decrypt uri (info_of dir)) (codes "?");
  }

  pub insert_record : DirectoryTree → Str → Directory → DirectoryTree
  insert_record t uri dir = record t {
    directories = insert t.directories uri (delta_info uri dir);
    placeholders = remove t.placeholders uri;
  }

  pub apply_directory_delta : DirectoryTree → Str → Directory → DirectoryTree × TreeChange
  apply_directory_delta t uri dir =
      let info = delta_info uri dir in
      (
        adopt_root (advance_root (insert_record t uri dir) uri info) uri info,
        (if contains_key t.directories uri
            then TreeChange.updated uri
            else TreeChange.inserted uri),
      )
