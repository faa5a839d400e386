-- ===== src/TreeKeeper/Places.antt =====
-- What stands where in the state of indexer/tree_keeper/mod.rs, over its changes and notifications.
use opake.Base.{
  ℕ, ◌<◌, Bool, option_eq, Option, none, some, List, [], ◌∷◌, Str, All, Map, get, remove, keys,
  str_eq, nat_eq, ◌==◌, Bool-cases, Option-cases, inl, inr,
}
use opake.Base.Unique.{IsUnique, remove-IsUnique, All-insert, All-remove}
use opake.Records.{UnreadableRef}
use opake.Events.{CorruptScope, directory_scope, document_scope, keyring_scope, grant_scope}
use opake.Tree.{DirectoryTree, TreeChange, is_effective, IsWellFormed}
use opake.Tree.Apply.{apply_directory_delete, apply_unreadable_ref}
use opake.Tree.Apply.Deltas.{apply_directory_delete-IsWellFormed}
use opake.Tree.Apply.Placeholders.{apply_unreadable_ref-IsWellFormed}
use opake.TreeKeeper.{
  HeldTree, held_cabinet, held_workspace, TreeScope, cabinet_scope, workspace_scope, WatcherEntry,
  TreeKeeper, tree_of, with_tree, held_for_scope, set_held, tree_for_scope, remove_all, fire_change,
  deleted_uri,
}
use opake.TreeKeeper.Apply.{
  Notified, notify_watchers_for_change, try_workspaces, try_each, tried, try_workspace, try_cabinet,
  corrupt_in, apply_keeper_delete, tell_scope,
}

module _ {Key PrivateKeys : Type 0} where
  abbrev pub IsCabinet : HeldTree Key PrivateKeys → Type 0
  IsCabinet (held_cabinet tree keys) = IsWellFormed tree
  IsCabinet (held_workspace w) = ⊥

  abbrev pub IsWorkspace : HeldTree Key PrivateKeys → Type 0
  IsWorkspace (held_cabinet tree keys) = ⊥
  IsWorkspace (held_workspace w) = IsWellFormed w.tree

  abbrev pub IsPlacedAt : TreeScope → HeldTree Key PrivateKeys → Type 0
  IsPlacedAt cabinet_scope h = IsCabinet h
  IsPlacedAt (workspace_scope uri) h = IsWorkspace h

abbrev pub OnSome : {A : Type 0} → (A → Type 0) → Option A → Type 0
OnSome P none = Unit
OnSome P (some a) = P a

-- The code returned, in a state with the property.
abbrev pub Returns : {A B : Type 0} → (A → Type 0) → Option (A × B) → Type 0
Returns P none = ⊥
Returns P (some r) = P r.0

module _ {Key PrivateKeys : Type 0} where
  pub get-IsWorkspace :
      (m : Map Str (HeldTree Key PrivateKeys)) (u : Str)
      → All (λ (p : Str × HeldTree Key PrivateKeys). IsWorkspace p.1) m
      → OnSome IsWorkspace (get m u)
  unfolding get
  get-IsWorkspace [] u a = tt
  get-IsWorkspace ((v, h) ∷ m) u a = elim (Bool-cases (v == u)) [
    | inl q ↦ rw q a.0
    | inr q ↦ rw q (get-IsWorkspace m u a.1)
  ]

  with_tree-IsPlacedAt :
      (scope : TreeScope) (h : HeldTree Key PrivateKeys) (t : DirectoryTree)
      → IsPlacedAt scope h
      → IsWellFormed t
      → IsPlacedAt scope (with_tree h t)
  with_tree-IsPlacedAt cabinet_scope (held_cabinet tree keys) t a w = w
  with_tree-IsPlacedAt cabinet_scope (held_workspace x) t a w = absurd a
  with_tree-IsPlacedAt (workspace_scope u) (held_cabinet tree keys) t a w = absurd a
  with_tree-IsPlacedAt (workspace_scope u) (held_workspace x) t a w = w

  pub tree_of-IsWellFormed :
      (scope : TreeScope) (h : HeldTree Key PrivateKeys)
      → IsPlacedAt scope h
      → IsWellFormed (tree_of h)
  tree_of-IsWellFormed cabinet_scope (held_cabinet tree keys) a = a
  tree_of-IsWellFormed cabinet_scope (held_workspace x) a = absurd a
  tree_of-IsWellFormed (workspace_scope u) (held_cabinet tree keys) a = absurd a
  tree_of-IsWellFormed (workspace_scope u) (held_workspace x) a = a

module _ {Callback : Type 0} where
  remove_all-All :
      (Q : ℕ × WatcherEntry Callback → Type 0) (m : Map ℕ (WatcherEntry Callback)) (hs : List ℕ)
      → All Q m
      → All Q (remove_all m hs)
  unfolding remove_all
  remove_all-All Q m [] a = a
  remove_all-All Q m (h ∷ hs) a = remove_all-All Q (remove m h) hs (All-remove Q m h a)

  remove_all-IsUnique :
      (m : Map ℕ (WatcherEntry Callback)) (hs : List ℕ) → IsUnique m → IsUnique (remove_all m hs)
  unfolding remove_all
  remove_all-IsUnique m [] u = u
  remove_all-IsUnique m (h ∷ hs) u = remove_all-IsUnique (remove m h) hs (remove-IsUnique m h u)

module _ {Key PrivateKeys Callback : Type 0} where
  -- The cabinet's slot holds a cabinet's tree, and the others hold workspaces' trees; no tree has a
  -- URI both readable and a placeholder; a handle stands for one watcher, and was given out before.
  pub record IsPlaced (k : TreeKeeper Key PrivateKeys Callback) : Type 0 where
    pub cabinet_placed : OnSome IsCabinet k.cabinet
    pub workspaces_placed :
        All (λ (p : Str × HeldTree Key PrivateKeys). IsWorkspace p.1) k.workspaces
    pub handles_given : All (λ (p : ℕ × WatcherEntry Callback). p.0 < k.next_watcher_id) k.watchers
    pub handles_unique : IsUnique k.watchers

  pub held_for_scope-IsPlacedAt :
      (k : TreeKeeper Key PrivateKeys Callback) (scope : TreeScope)
      → IsPlaced k
      → OnSome (IsPlacedAt scope) (held_for_scope k scope)
  held_for_scope-IsPlacedAt k cabinet_scope p = p.cabinet_placed
  held_for_scope-IsPlacedAt k (workspace_scope uri) p =
      get-IsWorkspace k.workspaces uri p.workspaces_placed

  pub set_held-IsPlaced :
      (k : TreeKeeper Key PrivateKeys Callback) (scope : TreeScope) (h : HeldTree Key PrivateKeys)
      → IsPlacedAt scope h
      → IsPlaced k
      → IsPlaced (set_held k scope h)
  set_held-IsPlaced k cabinet_scope h a p = record {
    cabinet_placed = a;
    workspaces_placed = p.workspaces_placed;
    handles_given = p.handles_given;
    handles_unique = p.handles_unique;
  }
  set_held-IsPlaced k (workspace_scope uri) h a p = record {
    cabinet_placed = p.cabinet_placed;
    workspaces_placed =
        All-insert (λ (q : Str × HeldTree Key PrivateKeys). IsWorkspace q.1) k.workspaces uri h
          p.workspaces_placed a;
    handles_given = p.handles_given;
    handles_unique = p.handles_unique;
  }

  pub notify-IsPlaced :
      (k : TreeKeeper Key PrivateKeys Callback) (scope : TreeScope) (change : TreeChange)
      → IsPlaced k
      → IsPlaced (notify_watchers_for_change k scope change).0
  unfolding notify_watchers_for_change
  notify-IsPlaced k scope change p = elim (Option-cases (tree_for_scope k scope)) [
    | inl q ↦ rw (q, notify_watchers_for_change) p
    | inr (t, q) ↦
        let close = (fire_change scope t (deleted_uri change) k.watchers).1 in
        rw (q, notify_watchers_for_change)
          (record {
            cabinet_placed = p.cabinet_placed;
            workspaces_placed = p.workspaces_placed;
            handles_given =
                remove_all-All (λ (w : ℕ × WatcherEntry Callback). w.0 < k.next_watcher_id)
                  k.watchers close p.handles_given;
            handles_unique = remove_all-IsUnique k.watchers close p.handles_unique;
          })
  ]

  changed-IsPlaced :
      (k : TreeKeeper Key PrivateKeys Callback) (scope : TreeScope) (h : HeldTree Key PrivateKeys)
      (t : DirectoryTree)
      → IsPlaced k
      → IsPlacedAt scope h
      → IsWellFormed t
      → IsPlaced (set_held k scope (with_tree h t))
  changed-IsPlaced k scope h t p a w =
      set_held-IsPlaced k scope (with_tree h t) (with_tree-IsPlacedAt scope h t a w) p

  -- A change that is tried in each tree.
  module _ {Answer : Type 0} (change : DirectoryTree → DirectoryTree × Answer)
      (effective : Answer → Bool)
      (tell : TreeKeeper Key PrivateKeys Callback
        → TreeScope
        → Answer
        → Notified Key PrivateKeys Callback)
      (good : (t : DirectoryTree) → IsWellFormed t → IsWellFormed (change t).0)
      (told : (k : TreeKeeper Key PrivateKeys Callback) (scope : TreeScope) (a : Answer)
        → IsPlaced k
        → IsPlaced (tell k scope a).0) where
    tried-IsPlaced :
        (k : TreeKeeper Key PrivateKeys Callback) (scope : TreeScope) (h : HeldTree Key PrivateKeys)
        (next : TreeKeeper Key PrivateKeys Callback → Notified Key PrivateKeys Callback)
        → IsPlaced k
        → IsPlacedAt scope h
        → ((k' : TreeKeeper Key PrivateKeys Callback) → IsPlaced k' → IsPlaced (next k').0)
        → IsPlaced (tried change effective tell k scope h next).0
    tried-IsPlaced k scope h next p a n =
        let k' = set_held k scope (with_tree h (change (tree_of h)).0) in
        let q =
          changed-IsPlaced k scope h (change (tree_of h)).0 p a
            (good (tree_of h) (tree_of-IsWellFormed scope h a)) in
        elim (Bool-cases (effective (change (tree_of h)).1)) [
          | inl r ↦ rw r (told k' scope (change (tree_of h)).1 q)
          | inr r ↦ rw r (n k' q)
        ]

    try_workspace-IsPlaced :
        (k : TreeKeeper Key PrivateKeys Callback) (uri : Str)
        (o : Option (HeldTree Key PrivateKeys))
        (next : TreeKeeper Key PrivateKeys Callback → Notified Key PrivateKeys Callback)
        → IsPlaced k
        → OnSome IsWorkspace o
        → ((k' : TreeKeeper Key PrivateKeys Callback) → IsPlaced k' → IsPlaced (next k').0)
        → IsPlaced (try_workspace change effective tell k uri o next).0
    try_workspace-IsPlaced k uri none next p a n = n k p
    try_workspace-IsPlaced k uri (some (held_cabinet t s)) next p a n = n k p
    try_workspace-IsPlaced k uri (some (held_workspace w)) next p a n =
        tried-IsPlaced k (workspace_scope uri) (held_workspace w) next p a n

    try_workspaces-IsPlaced :
        (uris : List Str) (k : TreeKeeper Key PrivateKeys Callback)
        → IsPlaced k
        → IsPlaced (try_workspaces change effective tell uris k).0
    unfolding try_workspaces
    try_workspaces-IsPlaced [] k p = p
    try_workspaces-IsPlaced (uri ∷ uris) k p =
        try_workspace-IsPlaced k uri (get k.workspaces uri)
          (try_workspaces change effective tell uris) p
          (get-IsWorkspace k.workspaces uri p.workspaces_placed) (try_workspaces-IsPlaced uris)

    try_cabinet-IsPlaced :
        (k : TreeKeeper Key PrivateKeys Callback) (o : Option (HeldTree Key PrivateKeys))
        → IsPlaced k
        → OnSome IsCabinet o
        → IsPlaced (try_cabinet change effective tell k o).0
    try_cabinet-IsPlaced k none p a = try_workspaces-IsPlaced (keys k.workspaces) k p
    try_cabinet-IsPlaced k (some (held_workspace w)) p a = absurd a
    try_cabinet-IsPlaced k (some (held_cabinet t s)) p a =
        tried-IsPlaced k cabinet_scope (held_cabinet t s)
          (λ k'. try_workspaces change effective tell (keys k'.workspaces) k') p a
          (λ k'. try_workspaces-IsPlaced (keys k'.workspaces) k')

    try_each-IsPlaced :
        (k : TreeKeeper Key PrivateKeys Callback)
        → IsPlaced k
        → IsPlaced (try_each change effective tell k).0
    unfolding try_each
    try_each-IsPlaced k p = try_cabinet-IsPlaced k k.cabinet p p.cabinet_placed

  pub delete-IsPlaced :
      (k : TreeKeeper Key PrivateKeys Callback) (uri : Str)
      → IsPlaced k
      → IsPlaced (apply_keeper_delete k uri).0
  unfolding apply_keeper_delete
  delete-IsPlaced k uri =
      try_each-IsPlaced (λ t. apply_directory_delete t uri) is_effective notify_watchers_for_change
        (λ t. apply_directory_delete-IsWellFormed t uri) notify-IsPlaced k

  pub corrupt-IsPlaced :
      (k : TreeKeeper Key PrivateKeys Callback) (ref : UnreadableRef) (scope : CorruptScope)
      (uri : Option Str)
      → IsPlaced k
      → IsPlaced (corrupt_in k ref scope uri).0
  corrupt-IsPlaced k ref document_scope uri p = p
  corrupt-IsPlaced k ref keyring_scope uri p = p
  corrupt-IsPlaced k ref grant_scope uri p = p
  corrupt-IsPlaced k ref directory_scope none p = p
  corrupt-IsPlaced k ref directory_scope (some uri) p =
      try_each-IsPlaced (λ t. apply_unreadable_ref t ref) (λ visible. visible) tell_scope
        (λ t. apply_unreadable_ref-IsWellFormed t ref) (λ k scope a p. p) k p

  -- A change written back, and its notification.
  pub told_change :
      (k : TreeKeeper Key PrivateKeys Callback) (scope : TreeScope) (h : HeldTree Key PrivateKeys)
      (r : DirectoryTree × TreeChange)
      → IsPlaced k
      → IsPlacedAt scope h
      → IsWellFormed r.0
      → IsPlaced (notify_watchers_for_change (set_held k scope (with_tree h r.0)) scope r.1).0
  told_change k scope h r p a w =
      notify-IsPlaced (set_held k scope (with_tree h r.0)) scope r.1
        (changed-IsPlaced k scope h r.0 p a w)
