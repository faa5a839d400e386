-- ===== src/Tree/Roots.antt =====
-- Building the tree from records, and its root: which supersede edges count, and the walk forward to
-- the head of a chain.
pub mod Forward
pub mod Superseded
mod Examples
use opake.Base.{
  ℕ, zero, suc, Bool, true, ◌&&◌, not, Option, none, some, List, [], ◌∷◌, Str, ◌==◌, str_eq,
  option_eq, contains, keep, find, map, length, Map, get, insert_all, keys, if◌then◌else◌,
}
use opake.Records.{Directory}
use opake.Tree.{DirectoryInfo, DirectoryTree, info_of, anchor, has_self_rkey}

-- A supersede edge counts unless the prior is known and its anchor differs.
unfoldable pub edge_counts : Map Str DirectoryInfo → Str → DirectoryInfo → Str → Bool
edge_counts directories uri info prior_uri = elim (get directories prior_uri) [
  | none ↦ true
  | some prior ↦ anchor uri info == anchor prior_uri prior
]

unfoldable pub superseded_from : Map Str DirectoryInfo → Map Str DirectoryInfo → List Str
superseded_from directories [] = []
superseded_from directories ((uri, info) ∷ rest) =
    let more = superseded_from directories rest in
    elim info.supersedes_uri [
      | none ↦ more
      | some prior ↦ if edge_counts directories uri info prior then prior ∷ more else more
    ]

-- The URIs that some record supersedes.
unfoldable pub superseded_uris : DirectoryTree → List Str
superseded_uris t = superseded_from t.directories t.directories

-- The chain heads.
unfoldable pub canonical_directory_uris : DirectoryTree → List Str
canonical_directory_uris t =
    keep (λ uri. not (contains (superseded_uris t) uri)) (keys t.directories)

detect_root : Map Str DirectoryInfo → Option Str
detect_root directories =
    let flagged =
      find
        (λ (p : Str × DirectoryInfo).
          p.1.is_workspace_root && not (contains (superseded_from directories directories) p.0))
        directories in
    elim flagged [ some p ↦ some p.0 | none ↦ find has_self_rkey (keys directories) ]

-- The directories are collected into the map; the root is the flagged chain head, or the record at
-- rkey `self`.
pub from_records : List (Str × Directory) → DirectoryTree
from_records records =
    let directories = insert_all [] (map (λ (p : Str × Directory). (p.0, info_of p.1)) records) in
    record { directories = directories; placeholders = []; root_uri = detect_root directories }

-- The anchor that a successor of `current` has to declare.
unfoldable pub current_anchor : Map Str DirectoryInfo → Str → Str
current_anchor directories current = elim (get directories current) [
  | none ↦ current
  | some info ↦ anchor current info
]

unfoldable pub is_successor : Map Str DirectoryInfo → Str → Str × DirectoryInfo → Bool
is_successor directories current p =
    p.1.supersedes_uri == some current && anchor p.0 p.1 == current_anchor directories current

pub successor : Map Str DirectoryInfo → Str → Option Str
successor directories current = elim (find (is_successor directories current) directories) [
  | none ↦ none
  | some p ↦ some p.0
]

-- `for _ in 0..bound` with the break.
pub advance : ℕ → Map Str DirectoryInfo → Str → Str
advance zero directories current = current
advance (suc n) directories current = elim (successor directories current) [
  | none ↦ current
  | some next ↦ advance n directories next
]

pub set_root : DirectoryTree → Str → DirectoryTree
set_root t uri = record t {
  root_uri = some (advance (suc (length t.directories)) t.directories uri);
}
