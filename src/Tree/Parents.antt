-- ===== src/Tree/Parents.antt =====
-- `find_parent` and `is_reachable_from_root` of directories/tree.rs.
pub mod Reachable
mod Examples
use opake.Base.{
  ℕ, zero, suc, Bool, true, false, ◌&&◌, not, Option, none, some, List, [], ◌∷◌, Str, ◌==◌, str_eq,
  contains, length, Map, if◌then◌else◌, find,
}
use opake.Tree.{DirectoryInfo, DirectoryTree}
use opake.Tree.Roots.{superseded_uris}

pub lists_child : List Str → Str → Str × DirectoryInfo → Bool
lists_child superseded child p = not (contains superseded p.0) && contains p.1.entries child

-- The first chain head, in the map's order, that lists the child.
pub find_parent : DirectoryTree → Str → Option Str
find_parent t child = elim (find (lists_child (superseded_uris t) child) t.directories) [
  | none ↦ none
  | some p ↦ some p.0
]

-- `for _ in 0..=self.directories.len()`.
pub climbs_to_root : DirectoryTree → ℕ → Str → Str → Bool
climbs_to_root t zero root current = false
climbs_to_root t (suc n) root current = elim (find_parent t current) [
  | none ↦ false
  | some parent ↦ elim (parent == root) [ true ↦ true | false ↦ climbs_to_root t n root parent ]
]

pub is_reachable_from_root : DirectoryTree → Str → Bool
is_reachable_from_root t uri = elim t.root_uri [
  | none ↦ false
  | some root ↦ elim (uri == root) [
    | true ↦ true
    | false ↦ climbs_to_root t (suc (length t.directories)) root uri
  ]
]
