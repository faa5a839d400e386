-- ===== src/TreeKeeper/Watchers.antt =====
-- The watchers that `notify_watchers_for_change` of indexer/tree_keeper/mod.rs closes, and deletes in one
-- tree.
use opake.Tree.Parents.{is_reachable_from_root}
use opake.Base.{
  is_some, not, ◌≡◌, refl, ℕ, Bool, true, false, ◌&&◌, ◌||◌, Option, none, some, List, [], ◌∷◌, Str,
  contains, Map, get, insert, remove, get-remove, contains_key, Eq, str_eq, nat_eq, nat_beq_iff,
  str_beq_iff, ◌==◌, arith, Bool-cases, Option-cases, inl, inr, if◌then◌else◌,
}
use opake.Base.Unique.{IsUnique}
use opake.Tree.{DirectoryTree, TreeChange}
use opake.Tree.Apply.{apply_directory_delete}
use opake.TreeKeeper.{
  HeldTree, held_cabinet, held_workspace, TreeScope, cabinet_scope, workspace_scope, same_scope,
  WatcherEntry, tree_of, with_tree, remove_all, fire_change,
}

abbrev pub knows : DirectoryTree → Str → Bool
knows t uri = contains_key t.directories uri || contains_key t.placeholders uri

-- The watched directory is the deleted one, or a root is set and no longer reaches it.
abbrev pub is_lost : DirectoryTree → Str → Str → Bool
is_lost t deleted watched =
    if watched == deleted
    then true
    else if is_some t.root_uri
    then not (is_reachable_from_root t watched)
    else false

-- A watcher of the scope is closed if its directory is lost.
abbrev pub kept :
    {Callback : Type 0}
    → TreeScope
    → DirectoryTree
    → Str
    → Option (WatcherEntry Callback)
    → Option (WatcherEntry Callback)
kept scope t deleted none = none
kept scope t deleted (some w) =
    if same_scope w.scope scope && is_lost t deleted w.directory_uri then none else some w

module _ {Callback : Type 0} (scope : TreeScope) (t : DirectoryTree) (deleted : Str) where
  get-remove_all :
      (m : Map ℕ (WatcherEntry Callback)) (hs : List ℕ) (h : ℕ)
      → get (remove_all m hs) h ≡ (if contains hs h then none else get m h)
  unfolding remove_all
  get-remove_all m [] h = refl
  get-remove_all m (x ∷ hs) h = ground (arith, get-remove_all (remove m x) hs h, get-remove m x h)

  closes : Option (WatcherEntry Callback) → Bool
  closes none = false
  closes (some w) = same_scope w.scope scope && is_lost t deleted w.directory_uri

  contains-close :
      (m : Map ℕ (WatcherEntry Callback)) (h : ℕ)
      → IsUnique m
      → contains (fire_change scope t (some deleted) m).1 h ≡ closes (get m h)
  unfolding fire_change closes get
  contains-close [] h u = refl
  contains-close ((x, w) ∷ m) h u = elim (Bool-cases (x == h)) [
    | inl q ↦
        let e : x ≡ h = (nat_beq_iff x h).0 q in
        let absent : get m h ≡ none = rw e at u.0 in
        let rest : contains (fire_change scope t (some deleted) m).1 h ≡ false =
          rw absent at (contains-close m h u.1) in
        ground
          (arith, q, rest, str_beq_iff deleted w.directory_uri, str_beq_iff w.directory_uri deleted)
    | inr q ↦ ground (
      arith,
      q,
      contains-close m h u.1,
      str_beq_iff deleted w.directory_uri,
      str_beq_iff w.directory_uri deleted,
    )
  ]

  pub closed_exactly :
      (m : Map ℕ (WatcherEntry Callback)) (h : ℕ)
      → IsUnique m
      → get (remove_all m (fire_change scope t (some deleted) m).1) h
        ≡ kept scope t deleted (get m h)
  unfolding closes
  closed_exactly m h u = elim (Option-cases (get m h)) [
    | inl q ↦ ground (arith, q, get-remove_all m (fire_change scope t (some deleted) m).1 h)
    | inr (w, q) ↦ ground (
      arith,
      q,
      get-remove_all m (fire_change scope t (some deleted) m).1 h,
      rw q at (contains-close m h u),
    )
  ]

pub insert_same :
    {K V : Type 0} ⦃e : Eq K⦄ (m : Map K V) (k : K) (v : V) → get m k ≡ some v → insert m k v ≡ m
unfolding get insert
insert_same [] k v h = cc h
insert_same ⦃e⦄ ((j, w) ∷ m) k v h = elim (Bool-cases (j == k)) [
  | inl q ↦ let p : j ≡ k = (e.equal_iff j k).0 q in ground (arith, q, p, h)
  | inr q ↦ ground (arith, q, insert_same m k v (ground (arith, q, h)))
]

pub delete_known :
    (t : DirectoryTree) (uri : Str)
    → knows t uri ≡ true
    → (apply_directory_delete t uri).1 ≡ TreeChange.removed uri
unfolding apply_directory_delete
delete_known t uri h = ground (arith, h)

pub delete_unknown :
    (t : DirectoryTree) (uri : Str)
    → knows t uri ≡ false
    → apply_directory_delete t uri ≡ (t, TreeChange.no_op)
unfolding apply_directory_delete
delete_unknown t uri h = rw h refl

pub same_scope_refl : (scope : TreeScope) → same_scope scope scope ≡ true
same_scope_refl cabinet_scope = refl
same_scope_refl (workspace_scope u) = (str_beq_iff u u).1 refl

module _ {Key PrivateKeys : Type 0} where
  pub tree-with_tree :
      (h : HeldTree Key PrivateKeys) (t : DirectoryTree) → tree_of (with_tree h t) ≡ t
  tree-with_tree (held_cabinet x s) t = refl
  tree-with_tree (held_workspace w) t = refl

  pub with_tree-tree_of : (h : HeldTree Key PrivateKeys) → with_tree h (tree_of h) ≡ h
  with_tree-tree_of (held_cabinet x s) = refl
  with_tree-tree_of (held_workspace w) = refl
