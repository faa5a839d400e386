-- ===== src/TreeKeeper/Apply.antt =====
-- The application of events and the notifications of indexer/tree_keeper/mod.rs. `none` is the
-- `unreachable!` of `apply_directory_upsert`.
use opake.Base.{
  ℕ, Bool, true, false, Option, none, some, List, [], ◌∷◌, ◌++◌, Str, Eq, str_eq, Map, get,
  unwrap_or, keys, if◌then◌else◌,
}
use opake.Records.{Directory, Keyring, UnreadableRef}
use opake.Events.{
  IndexerEnvelope, SseEvent, directory_upsert, directory_delete, document_upsert, document_delete,
  keyring_upsert, keyring_delete, grant_upsert, grant_delete, corrupt_record, chain_forked,
  reconnect, SseCorruptRecord, CorruptScope, directory_scope, document_scope, keyring_scope,
  grant_scope,
}
use opake.Tree.{DirectoryTree, TreeChange, is_effective}
use opake.Tree.Names.{Crypto, DecryptionCtx, decrypt_directory_name}
use opake.Tree.Apply.{apply_directory_delta, apply_directory_delete, apply_unreadable_ref}
use opake.Workspace.{KeyringCrypto}
use opake.TreeKeeper.{
  WorkspaceTree, HeldTree, held_cabinet, held_workspace, TreeScope, cabinet_scope, workspace_scope,
  WatcherEntry, TreeKeeper, Firings, tree_of, with_tree, held_for_scope, set_held, tree_for_scope,
  scope_from_keyring_uri, deleted_uri, fire_change, remove_all, fire_scope, eager,
}
use opake.TreeKeeper.Adopt.{adopt_keyring_rotation, view_of}

abbrev pub Notified : Type 0 → Type 0 → Type 0 → Type 0
Notified Key PrivateKeys Callback = TreeKeeper Key PrivateKeys Callback × Firings Callback

module _ {Key PrivateKeys Callback : Type 0} where
  unfoldable pub notify_watchers_for_change :
      TreeKeeper Key PrivateKeys Callback
      → TreeScope
      → TreeChange
      → Notified Key PrivateKeys Callback
  notify_watchers_for_change k scope change = elim (tree_for_scope k scope) [
    | none ↦ (k, [])
    | some tree ↦
        let (fired, close) = fire_change scope tree (deleted_uri change) k.watchers in
        (record k { watchers = remove_all k.watchers close }, fired)
  ]

  unfoldable pub notify_scope : TreeKeeper Key PrivateKeys Callback → TreeScope → Firings Callback
  notify_scope k scope = elim (tree_for_scope k scope) [
    | none ↦ []
    | some tree ↦ fire_scope scope tree k.watchers
  ]

  -- Each watcher with the tree of its own scope.
  abbrev fire_all :
      TreeKeeper Key PrivateKeys Callback → Map ℕ (WatcherEntry Callback) → Firings Callback
  fire_all k [] = []
  fire_all k ((handle, w) ∷ ws) = eager w.callback (tree_for_scope k w.scope) ++ fire_all k ws

  unfoldable pub notify_all_watchers : TreeKeeper Key PrivateKeys Callback → Firings Callback
  notify_all_watchers k = fire_all k k.watchers

  -- One change tried in turn, in the cabinet and then in each workspace, until it takes effect:
  -- the change, whether its answer is an effect, and the notification of one.
  module _ {Answer : Type 0} (change : DirectoryTree → DirectoryTree × Answer)
      (effective : Answer → Bool)
      (tell : TreeKeeper Key PrivateKeys Callback
        → TreeScope
        → Answer
        → Notified Key PrivateKeys Callback) where
    abbrev pub tried :
        TreeKeeper Key PrivateKeys Callback
        → TreeScope
        → HeldTree Key PrivateKeys
        → (TreeKeeper Key PrivateKeys Callback → Notified Key PrivateKeys Callback)
        → Notified Key PrivateKeys Callback
    tried k scope held next =
        let (tree, answer) = change (tree_of held) in
        let k' = set_held k scope (with_tree held tree) in
        if effective answer then tell k' scope answer else next k'

    -- Entries that are gone, or that hold the cabinet, are passed over.
    abbrev pub try_workspace :
        TreeKeeper Key PrivateKeys Callback
        → Str
        → Option (HeldTree Key PrivateKeys)
        → (TreeKeeper Key PrivateKeys Callback → Notified Key PrivateKeys Callback)
        → Notified Key PrivateKeys Callback
    try_workspace k uri none next = next k
    try_workspace k uri (some (held_cabinet tree keys)) next = next k
    try_workspace k uri (some (held_workspace w)) next =
        tried k (workspace_scope uri) (held_workspace w) next

    unfoldable pub try_workspaces :
        List Str → TreeKeeper Key PrivateKeys Callback → Notified Key PrivateKeys Callback
    try_workspaces [] k = (k, [])
    try_workspaces (uri ∷ uris) k = try_workspace k uri (get k.workspaces uri) (try_workspaces uris)

    abbrev pub try_cabinet :
        TreeKeeper Key PrivateKeys Callback
        → Option (HeldTree Key PrivateKeys)
        → Notified Key PrivateKeys Callback
    try_cabinet k none = try_workspaces (keys k.workspaces) k
    try_cabinet k (some (held_workspace w)) = try_workspaces (keys k.workspaces) k
    try_cabinet k (some (held_cabinet tree private_keys)) =
        tried k cabinet_scope (held_cabinet tree private_keys)
          (λ k'. try_workspaces (keys k'.workspaces) k')

    unfoldable pub try_each :
        TreeKeeper Key PrivateKeys Callback → Notified Key PrivateKeys Callback
    try_each k = try_cabinet k k.cabinet

  unfoldable pub apply_keeper_delete :
      TreeKeeper Key PrivateKeys Callback → Str → Notified Key PrivateKeys Callback
  apply_keeper_delete k uri =
      try_each (λ t. apply_directory_delete t uri) is_effective notify_watchers_for_change k

  abbrev pub tell_scope :
      TreeKeeper Key PrivateKeys Callback → TreeScope → Bool → Notified Key PrivateKeys Callback
  tell_scope k scope visible = (k, notify_scope k scope)

  -- A corrupt directory with a URI; the other scopes are not this keeper's.
  abbrev pub corrupt_in :
      TreeKeeper Key PrivateKeys Callback
      → UnreadableRef
      → CorruptScope
      → Option Str
      → Notified Key PrivateKeys Callback
  corrupt_in k ref document_scope uri = (k, [])
  corrupt_in k ref keyring_scope uri = (k, [])
  corrupt_in k ref grant_scope uri = (k, [])
  corrupt_in k ref directory_scope none = (k, [])
  corrupt_in k ref directory_scope (some uri) =
      try_each (λ t. apply_unreadable_ref t ref) (λ visible. visible) tell_scope k

  unfoldable pub apply_corrupt_record :
      TreeKeeper Key PrivateKeys Callback → SseCorruptRecord → Notified Key PrivateKeys Callback
  apply_corrupt_record k r = corrupt_in k (record { uri = r.uri; reason = r.reason }) r.scope r.uri

module _ {Key PrivateKeys : Type 0} (c : Crypto Key PrivateKeys) where
  -- `DecryptionCtx::cabinet` and `DecryptionCtx::workspace`.
  abbrev pub cabinet_ctx : Str → PrivateKeys → DecryptionCtx c
  cabinet_ctx did keys = record { did = did; private_keys = some keys; group_keys = [] }

  abbrev pub workspace_ctx : Str → Str → WorkspaceTree Key PrivateKeys → DecryptionCtx c
  workspace_ctx did uri w = record {
    did = did;
    private_keys = none;
    group_keys = (uri, view_of w) ∷ [];
  }

  abbrev pub change_held :
      Str
      → IndexerEnvelope Directory
      → Bool
      → TreeScope
      → HeldTree Key PrivateKeys
      → Option (DirectoryTree × TreeChange)
  change_held did env true scope held = some (apply_directory_delete (tree_of held) env.uri)
  change_held did env false scope (held_cabinet tree keys) = some (
      apply_directory_delta (λ u i. decrypt_directory_name c u i (cabinet_ctx did keys)) tree
        env.uri env.body)
  change_held did env false cabinet_scope (held_workspace w) = none
  change_held did env false (workspace_scope uri) (held_workspace w) = some (
      apply_directory_delta (λ u i. decrypt_directory_name c u i (workspace_ctx did uri w)) w.tree
        env.uri env.body)

  module _ {Callback : Type 0} where
    abbrev pub changed :
        TreeKeeper Key PrivateKeys Callback
        → TreeScope
        → HeldTree Key PrivateKeys
        → Option (DirectoryTree × TreeChange)
        → Option (Notified Key PrivateKeys Callback)
    changed k scope held none = none
    changed k scope held (some (tree, change)) =
        some (notify_watchers_for_change (set_held k scope (with_tree held tree)) scope change)

    abbrev pub upsert_into :
        TreeKeeper Key PrivateKeys Callback
        → TreeScope
        → IndexerEnvelope Directory
        → Bool
        → Option (HeldTree Key PrivateKeys)
        → Option (Notified Key PrivateKeys Callback)
    upsert_into k scope env deleted none = some (k, [])
    upsert_into k scope env deleted (some held) =
        changed k scope held (change_held k.did env deleted scope held)

    -- An event for a context that is not loaded is dropped.
    unfoldable pub apply_directory_upsert :
        TreeKeeper Key PrivateKeys Callback
        → IndexerEnvelope Directory
        → Bool
        → Option (Notified Key PrivateKeys Callback)
    apply_directory_upsert k env deleted =
        let scope = scope_from_keyring_uri env.body.workspace_id in
        upsert_into k scope env deleted (held_for_scope k scope)

    module _ (w : KeyringCrypto Key PrivateKeys) ⦃e : Eq Key⦄ where
      abbrev pub adopt_and_tell :
          TreeKeeper Key PrivateKeys Callback
          → Str
          → IndexerEnvelope Keyring
          → Notified Key PrivateKeys Callback
      adopt_and_tell k keyring_uri env =
          let (k', adopted) = adopt_keyring_rotation c w k keyring_uri k.did env in
          if adopted then (k', notify_scope k' (workspace_scope keyring_uri)) else (k', [])

      unfoldable pub apply_event :
          TreeKeeper Key PrivateKeys Callback
          → SseEvent
          → Option (Notified Key PrivateKeys Callback)
      apply_event k (directory_upsert env) = apply_directory_upsert k env false
      apply_event k (directory_delete uri) = some (apply_keeper_delete k uri)
      apply_event k (document_upsert env) =
          some (k, notify_scope k (scope_from_keyring_uri env.body.workspace_id))
      apply_event k (document_delete uri) = some (k, notify_all_watchers k)
      apply_event k (keyring_upsert env) =
          some (adopt_and_tell k (unwrap_or env.body.lineage env.uri) env)
      apply_event k (keyring_delete p) = some (k, [])
      apply_event k (grant_upsert env) = some (k, [])
      apply_event k (grant_delete uri) = some (k, [])
      apply_event k (corrupt_record r) = some (apply_corrupt_record k r)
      apply_event k (chain_forked f) = some (k, [])
      apply_event k reconnect = some (k, notify_all_watchers k)
