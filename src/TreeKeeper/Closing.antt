-- ===== src/TreeKeeper/Closing.antt =====
-- A deleted directory, of indexer/tree_keeper/mod.rs: where the delete takes effect, and which
-- watchers it closes.
use opake.Base.{
  All, map, ◌≡◌, refl, sym, ◌⊎◌, ℕ, true, false, Option, none, some, List, [], ◌∷◌, Str, Map, get,
  get-insert, keys, str_eq, nat_eq, Bool-cases, inl, inr, if◌then◌else◌,
}
use opake.Base.Unique.{IsUnique}
use opake.Tree.{DirectoryTree, TreeChange, is_effective}
use opake.Tree.Apply.{apply_directory_delete}
use opake.TreeKeeper.{
  HeldTree, held_cabinet, held_workspace, TreeScope, cabinet_scope, workspace_scope, same_scope,
  WatcherEntry, TreeKeeper, tree_of, with_tree, held_for_scope, set_held, tree_for_scope,
  remove_all, fire_change,
}
use opake.TreeKeeper.Apply.{
  Notified, notify_watchers_for_change, try_workspaces, try_workspace, try_cabinet, try_each, tried,
  apply_keeper_delete,
}
use opake.TreeKeeper.Places.{IsPlaced, IsCabinet, IsWorkspace, OnSome, get-IsWorkspace}
use opake.TreeKeeper.Watchers.{
  knows, kept, closed_exactly, insert_same, delete_known, delete_unknown, same_scope_refl,
  tree-with_tree, with_tree-tree_of,
}

-- The state in which a delete took effect in one tree: that tree has lost the directory, the trees of
-- all other scopes are as they were, and exactly the scope's watchers of what is gone are closed.
module _ {Key PrivateKeys Callback : Type 0} where
  pub record DeletedIn (k k' : TreeKeeper Key PrivateKeys Callback) (uri : Str) (scope : TreeScope)
      (h : HeldTree Key PrivateKeys) : Type 0 where
    pub held : held_for_scope k scope ≡ some h
    pub known : knows (tree_of h) uri ≡ true
    pub changed : tree_for_scope k' scope ≡ some (apply_directory_delete (tree_of h) uri).0
    pub others :
        (other : TreeScope)
        → same_scope scope other ≡ false
        → tree_for_scope k' other ≡ tree_for_scope k other
    pub closed :
        (handle : ℕ)
        → get k'.watchers handle
          ≡ kept scope (apply_directory_delete (tree_of h) uri).0 uri (get k.watchers handle)

  abbrev pub Misses : TreeKeeper Key PrivateKeys Callback → Str → TreeScope → Type 0
  Misses k uri scope =
      OnSome (λ (h : HeldTree Key PrivateKeys). knows (tree_of h) uri ≡ false)
        (held_for_scope k scope)

  -- The delete took effect in one tree; or no tree of the scopes knew the directory, and nothing
  -- happened.
  abbrev pub DeletesOnce :
      TreeKeeper Key PrivateKeys Callback
      → Str
      → List TreeScope
      → Notified Key PrivateKeys Callback
      → Type 0
  DeletesOnce k uri scopes (k', fired) =
      ((scope : TreeScope) × (h : HeldTree Key PrivateKeys) × DeletedIn k k' uri scope h)
      ⊎ (All (Misses k uri) scopes × (k' ≡ k) × (fired ≡ []))

  set_held_same :
      (k : TreeKeeper Key PrivateKeys Callback) (scope : TreeScope) (h : HeldTree Key PrivateKeys)
      → held_for_scope k scope ≡ some h
      → set_held k scope h ≡ k
  set_held_same k cabinet_scope h p = rw (sym p) refl
  set_held_same k (workspace_scope uri) h p = rw (insert_same k.workspaces uri h p) refl

  held-set_held :
      (k : TreeKeeper Key PrivateKeys Callback) (scope other : TreeScope)
      (h : HeldTree Key PrivateKeys)
      → held_for_scope (set_held k scope h) other
        ≡ (if same_scope scope other then some h else held_for_scope k other)
  held-set_held k cabinet_scope cabinet_scope h = refl
  held-set_held k cabinet_scope (workspace_scope v) h = refl
  held-set_held k (workspace_scope u) cabinet_scope h = refl
  held-set_held k (workspace_scope u) (workspace_scope v) h = get-insert k.workspaces u v h

  watchers-set_held :
      (k : TreeKeeper Key PrivateKeys Callback) (scope : TreeScope) (h : HeldTree Key PrivateKeys)
      → (set_held k scope h).watchers ≡ k.watchers
  watchers-set_held k cabinet_scope h = refl
  watchers-set_held k (workspace_scope u) h = refl

  abbrev with_watchers :
      TreeKeeper Key PrivateKeys Callback
      → Map ℕ (WatcherEntry Callback)
      → TreeKeeper Key PrivateKeys Callback
  with_watchers k ws = record k { watchers = ws }

  held-with_watchers :
      (k : TreeKeeper Key PrivateKeys Callback) (ws : Map ℕ (WatcherEntry Callback))
      (scope : TreeScope)
      → held_for_scope (with_watchers k ws) scope ≡ held_for_scope k scope
  held-with_watchers k ws cabinet_scope = refl
  held-with_watchers k ws (workspace_scope u) = refl

  -- The keeper after the change, its watchers closed.
  abbrev after_change :
      TreeKeeper Key PrivateKeys Callback
      → Str
      → TreeScope
      → HeldTree Key PrivateKeys
      → DirectoryTree
      → TreeKeeper Key PrivateKeys Callback
  after_change k uri scope h t =
      let k₁ = set_held k scope (with_tree h t) in
      with_watchers k₁ (remove_all k₁.watchers (fire_change scope t (some uri) k₁.watchers).1)

  set_tree :
      (k : TreeKeeper Key PrivateKeys Callback) (scope : TreeScope) (h : HeldTree Key PrivateKeys)
      (t : DirectoryTree)
      → tree_for_scope (set_held k scope (with_tree h t)) scope ≡ some t
  unfolding tree_for_scope
  set_tree k scope h t =
      rw (held-set_held k scope scope (with_tree h t), same_scope_refl scope, tree-with_tree h t)
        refl

  notified :
      (k : TreeKeeper Key PrivateKeys Callback) (uri : Str) (scope : TreeScope)
      (h : HeldTree Key PrivateKeys) (t : DirectoryTree)
      → (notify_watchers_for_change
          (set_held k scope (with_tree h t))
          scope
          (TreeChange.removed uri)).0
        ≡ after_change k uri scope h t
  unfolding notify_watchers_for_change
  notified k uri scope h t = rw (set_tree k scope h t, notify_watchers_for_change) refl

  after_change-DeletedIn :
      (k : TreeKeeper Key PrivateKeys Callback) (uri : Str) (scope : TreeScope)
      (h : HeldTree Key PrivateKeys)
      → IsUnique k.watchers
      → held_for_scope k scope ≡ some h
      → knows (tree_of h) uri ≡ true
      → DeletedIn k
          (after_change k uri scope h (apply_directory_delete (tree_of h) uri).0)
          uri
          scope
          h
  unfolding tree_for_scope
  after_change-DeletedIn k uri scope h u p q =
      let t = (apply_directory_delete (tree_of h) uri).0 in
      let k₁ = set_held k scope (with_tree h t) in
      let ws = remove_all k₁.watchers (fire_change scope t (some uri) k₁.watchers).1 in
      record {
        held = p;
        known = q;
        changed = rw (held-with_watchers k₁ ws scope) (set_tree k scope h t);
        others = λ other d.
            rw (held-with_watchers k₁ ws other, held-set_held k scope other (with_tree h t), d)
              refl;
        closed = λ handle.
            rw (watchers-set_held k scope (with_tree h t))
              (closed_exactly scope t uri k.watchers handle u);
      }

  tried_once :
      (k : TreeKeeper Key PrivateKeys Callback) (uri : Str) (scope : TreeScope)
      (h : HeldTree Key PrivateKeys) (scopes : List TreeScope)
      (next : TreeKeeper Key PrivateKeys Callback → Notified Key PrivateKeys Callback)
      → IsUnique k.watchers
      → held_for_scope k scope ≡ some h
      → DeletesOnce k uri scopes (next k)
      → DeletesOnce k uri (scope ∷ scopes) (
          tried
            (λ t. apply_directory_delete t uri)
            is_effective
            notify_watchers_for_change
            k
            scope
            h
            next)
  unfolding is_effective
  tried_once k uri scope h scopes next u p n = elim (Bool-cases (knows (tree_of h) uri)) [
    | inl q ↦ rw (delete_known (tree_of h) uri q) (
        inl (
          scope,
          h,
          rw (notified k uri scope h (apply_directory_delete (tree_of h) uri).0)
              (after_change-DeletedIn k uri scope h u p q),
        ))
    | inr q ↦
        rw (delete_unknown (tree_of h) uri q, with_tree-tree_of h, set_held_same k scope h p)
          (elim n [
            | inl found ↦ inl found
            | inr (missed, same, silent) ↦ inr ((rw p q, missed), same, silent)
          ])
  ]

  try_workspaces_once :
      (k : TreeKeeper Key PrivateKeys Callback) (uri : Str) (uris : List Str)
      → IsPlaced k
      → DeletesOnce k uri (map workspace_scope uris) (
          try_workspaces
            (λ t. apply_directory_delete t uri)
            is_effective
            notify_watchers_for_change
            uris
            k)
  unfolding try_workspaces
  try_workspaces_once k uri [] p = inr (tt, refl, refl)
  try_workspaces_once k uri (v ∷ uris) p =
      at_workspace (get k.workspaces v) refl (get-IsWorkspace k.workspaces v p.workspaces_placed)
        (try_workspaces_once k uri uris p)
    where
      at_workspace :
          (o : Option (HeldTree Key PrivateKeys))
          → get k.workspaces v ≡ o
          → OnSome IsWorkspace o
          → DeletesOnce k uri (map workspace_scope uris) (
              try_workspaces
                (λ t. apply_directory_delete t uri)
                is_effective
                notify_watchers_for_change
                uris
                k)
          → DeletesOnce k uri (map workspace_scope (v ∷ uris)) (
              try_workspace
                (λ t. apply_directory_delete t uri)
                is_effective
                notify_watchers_for_change
                k
                v
                o
                (try_workspaces
                  (λ t. apply_directory_delete t uri)
                  is_effective
                  notify_watchers_for_change
                  uris))
      at_workspace none e a (inl found) = inl found
      at_workspace none e a (inr (missed, same, silent)) = inr ((rw e tt, missed), same, silent)
      at_workspace (some (held_cabinet t s)) e a n = absurd a
      at_workspace (some (held_workspace w)) e a n =
          tried_once k uri (workspace_scope v) (held_workspace w) (map workspace_scope uris)
            (try_workspaces (λ t. apply_directory_delete t uri) is_effective
              notify_watchers_for_change uris)
            p.handles_unique e n

  try_cabinet_once :
      (k : TreeKeeper Key PrivateKeys Callback) (uri : Str) (o : Option (HeldTree Key PrivateKeys))
      → IsPlaced k
      → k.cabinet ≡ o
      → OnSome IsCabinet o
      → DeletesOnce k uri (cabinet_scope ∷ map workspace_scope (keys k.workspaces)) (
          try_cabinet
            (λ t. apply_directory_delete t uri)
            is_effective
            notify_watchers_for_change
            k
            o)
  try_cabinet_once k uri none p e a = elim (try_workspaces_once k uri (keys k.workspaces) p) [
    | inl found ↦ inl found
    | inr (missed, same, silent) ↦ inr ((rw e tt, missed), same, silent)
  ]
  try_cabinet_once k uri (some (held_workspace w)) p e a = absurd a
  try_cabinet_once k uri (some (held_cabinet t s)) p e a =
      tried_once k uri cabinet_scope (held_cabinet t s) (map workspace_scope (keys k.workspaces))
        (λ k'.
          try_workspaces (λ t. apply_directory_delete t uri) is_effective notify_watchers_for_change
            (keys k'.workspaces) k')
        p.handles_unique e (try_workspaces_once k uri (keys k.workspaces) p)

  -- In a state whose trees stand in the slots of their kinds, where no tree has a URI both
  -- readable and a placeholder and each handle was given out before and stands for one watcher, a
  -- directory delete takes effect in exactly one installed tree that knows the directory: that
  -- tree loses it, the trees of all other scopes stay as they are, and of the watchers exactly
  -- those of the scope close whose directory is the deleted one or, with a root set, no longer
  -- reachable; if no installed tree knows the directory nothing changes and no watcher fires.
  pub delete_closes_exactly :
      (k : TreeKeeper Key PrivateKeys Callback) (uri : Str)
      → IsPlaced k
      → DeletesOnce k uri
          (cabinet_scope ∷ map workspace_scope (keys k.workspaces))
          (apply_keeper_delete k uri)
  unfolding apply_keeper_delete try_each
  delete_closes_exactly k uri p = try_cabinet_once k uri k.cabinet p refl p.cabinet_placed
