-- ===== src/TreeKeeper.antt =====
-- crates/opake-core, indexer/tree_keeper/mod.rs: the live trees of the cabinet and of each workspace,
-- and their watchers. A callback is a value that a firing names; `none` is the firing that tells of a
-- deletion. The cryptography is the parameters of Tree/Names and Workspace.
pub mod Adopt
pub mod Apply
pub mod Places
pub mod Adopted
pub mod Placed
pub mod Watchers
pub mod Closing
pub mod Echo
mod Examples
use opake.Base.{
  ℕ, suc, Bool, true, false, ◌&&◌, ◌||◌, not, Option, none, some, List, [], ◌∷◌, ◌++◌, Str, Eq,
  ◌==◌, str_eq, nat_eq, is_some, is_empty, map, keep, Map, get, insert, remove, if◌then◌else◌,
}
use opake.Tree.{DirectoryTree, TreeChange}
use opake.Tree.Names.{HistoricalKey}
use opake.Tree.Parents.{is_reachable_from_root}

pub record WorkspaceTree (Key PrivateKeys : Type 0) : Type 0 where
  pub tree : DirectoryTree
  pub group_key : Option Key
  pub rotation : ℕ
  pub historical_keys : List (HistoricalKey Key)
  pub keys : PrivateKeys

pub data HeldTree (Key PrivateKeys : Type 0) : Type 0 where
  held_cabinet : DirectoryTree → PrivateKeys → HeldTree Key PrivateKeys
  held_workspace : WorkspaceTree Key PrivateKeys → HeldTree Key PrivateKeys

pub data TreeScope : Type 0 where
  cabinet_scope : TreeScope
  workspace_scope : Str → TreeScope

abbrev pub same_scope : TreeScope → TreeScope → Bool
same_scope cabinet_scope cabinet_scope = true
same_scope (workspace_scope u) (workspace_scope v) = u == v
same_scope _ _ = false

pub record WatcherEntry (Callback : Type 0) : Type 0 where
  pub scope : TreeScope
  pub directory_uri : Str
  pub callback : Callback

pub record TreeKeeper (Key PrivateKeys Callback : Type 0) : Type 0 where
  pub did : Str
  pub cabinet : Option (HeldTree Key PrivateKeys)
  pub workspaces : Map Str (HeldTree Key PrivateKeys)
  pub watchers : Map ℕ (WatcherEntry Callback)
  pub next_watcher_id : ℕ

abbrev pub Firings : Type 0 → Type 0
Firings Callback = List (Callback × Option DirectoryTree)

module _ {Key PrivateKeys : Type 0} where
  abbrev pub tree_of : HeldTree Key PrivateKeys → DirectoryTree
  tree_of (held_cabinet tree keys) = tree
  tree_of (held_workspace w) = w.tree

  -- The tree is changed in place.
  abbrev pub with_tree : HeldTree Key PrivateKeys → DirectoryTree → HeldTree Key PrivateKeys
  with_tree (held_cabinet tree keys) t = held_cabinet t keys
  with_tree (held_workspace w) t = held_workspace (record w { tree = t })

  abbrev pub map_tree : Option (HeldTree Key PrivateKeys) → Option DirectoryTree
  map_tree none = none
  map_tree (some h) = some (tree_of h)

-- An absent or empty URI is the cabinet.
unfoldable pub scope_from_keyring_uri : Option Str → TreeScope
scope_from_keyring_uri none = cabinet_scope
scope_from_keyring_uri (some uri) =
    if not (is_empty uri) then workspace_scope uri else cabinet_scope

module _ {Callback : Type 0} where
  -- Rust's `retain` of the watchers outside a scope.
  abbrev pub outside : TreeScope → Map ℕ (WatcherEntry Callback) → Map ℕ (WatcherEntry Callback)
  outside scope = keep (λ (w : ℕ × WatcherEntry Callback). not (same_scope w.1.scope scope))

  abbrev pub eager : Callback → Option DirectoryTree → Firings Callback
  eager callback none = []
  eager callback (some tree) = (callback, some tree) ∷ []

module _ {Key PrivateKeys Callback : Type 0} where
  abbrev pub new_tree_keeper : Str → TreeKeeper Key PrivateKeys Callback
  new_tree_keeper did = record {
    did = did;
    cabinet = none;
    workspaces = [];
    watchers = [];
    next_watcher_id = 0;
  }

  unfoldable pub install_cabinet_tree :
      TreeKeeper Key PrivateKeys Callback
      → DirectoryTree
      → PrivateKeys
      → TreeKeeper Key PrivateKeys Callback
  install_cabinet_tree k tree keys = record k { cabinet = some (held_cabinet tree keys) }

  unfoldable pub install_workspace_tree :
      TreeKeeper Key PrivateKeys Callback
      → Str
      → WorkspaceTree Key PrivateKeys
      → TreeKeeper Key PrivateKeys Callback
  install_workspace_tree k keyring_uri w = record k {
    workspaces = insert k.workspaces keyring_uri (held_workspace w);
  }

  unfoldable pub uninstall_cabinet :
      TreeKeeper Key PrivateKeys Callback → TreeKeeper Key PrivateKeys Callback
  uninstall_cabinet k = record k { cabinet = none; watchers = outside cabinet_scope k.watchers }

  unfoldable pub uninstall_workspace :
      TreeKeeper Key PrivateKeys Callback → Str → TreeKeeper Key PrivateKeys Callback
  uninstall_workspace k uri = record k {
    workspaces = remove k.workspaces uri;
    watchers = outside (workspace_scope uri) k.watchers;
  }

  unfoldable pub uninstall_all :
      TreeKeeper Key PrivateKeys Callback → TreeKeeper Key PrivateKeys Callback
  uninstall_all k = record k { cabinet = none; workspaces = []; watchers = [] }

  abbrev pub held_for_scope :
      TreeKeeper Key PrivateKeys Callback → TreeScope → Option (HeldTree Key PrivateKeys)
  held_for_scope k cabinet_scope = k.cabinet
  held_for_scope k (workspace_scope uri) = get k.workspaces uri

  unfoldable pub tree_for_scope :
      TreeKeeper Key PrivateKeys Callback → TreeScope → Option DirectoryTree
  tree_for_scope k scope = map_tree (held_for_scope k scope)

  -- What `as_mut` and `get_mut` write back.
  abbrev pub set_held :
      TreeKeeper Key PrivateKeys Callback
      → TreeScope
      → HeldTree Key PrivateKeys
      → TreeKeeper Key PrivateKeys Callback
  set_held k cabinet_scope h = record k { cabinet = some h }
  set_held k (workspace_scope uri) h = record k { workspaces = insert k.workspaces uri h }

  -- Fired at once if the tree is installed.
  unfoldable pub install_watcher :
      TreeKeeper Key PrivateKeys Callback
      → TreeScope
      → Str
      → Callback
      → ℕ × (TreeKeeper Key PrivateKeys Callback × Firings Callback)
  unfolding tree_for_scope
  install_watcher k scope directory_uri callback = (
    k.next_watcher_id,
    (
      record k {
        next_watcher_id = suc k.next_watcher_id;
        watchers =
            insert k.watchers k.next_watcher_id
              (record { scope = scope; directory_uri = directory_uri; callback = callback });
      },
      eager callback (tree_for_scope k scope),
    ),
  )

  unfoldable pub unwatch :
      TreeKeeper Key PrivateKeys Callback → ℕ → TreeKeeper Key PrivateKeys Callback
  unwatch k handle = record k { watchers = remove k.watchers handle }

-- The URI that a change removed.
abbrev pub deleted_uri : TreeChange → Option Str
deleted_uri (TreeChange.removed uri) = some uri
deleted_uri _ = none

-- The deleted directory is gone, and with a root set what the root no longer reaches.
abbrev pub is_gone : DirectoryTree → Option Str → Str → Bool
is_gone t none uri = false
is_gone t (some deleted) uri =
    deleted == uri || (is_some t.root_uri && not (is_reachable_from_root t uri))

module _ {Callback : Type 0} where
  -- The loop of `notify_watchers_for_change`: the firings, and the handles to close.
  unfoldable pub fire_change :
      TreeScope
      → DirectoryTree
      → Option Str
      → Map ℕ (WatcherEntry Callback)
      → Firings Callback × List ℕ
  fire_change scope t deleted [] = ([], [])
  fire_change scope t deleted ((handle, w) ∷ ws) =
      let (fired, close) = fire_change scope t deleted ws in
      if not (same_scope w.scope scope)
      then (fired, close)
      else if is_gone t deleted w.directory_uri
      then ((w.callback, none) ∷ fired, handle ∷ close)
      else ((w.callback, some t) ∷ fired, close)

  unfoldable pub remove_all : Map ℕ (WatcherEntry Callback) → List ℕ → Map ℕ (WatcherEntry Callback)
  remove_all m [] = m
  remove_all m (h ∷ hs) = remove_all (remove m h) hs

  unfoldable pub fire_scope :
      TreeScope → DirectoryTree → Map ℕ (WatcherEntry Callback) → Firings Callback
  fire_scope scope t [] = []
  fire_scope scope t ((handle, w) ∷ ws) =
      let rest = fire_scope scope t ws in
      if same_scope w.scope scope then (w.callback, some t) ∷ rest else rest
