-- ===== src/Keepers/Keyrings.antt =====
-- crates/opake-wasm, sse_wasm.rs: the keyring events that reach the list of workspaces.
use opake.Base.{
  ◌≡◌, refl, ap, Bool, true, false, ◌&&◌, Option, none, some, List, [], ◌++◌, Str, str_eq, map, get,
  is_some,
}
use mathlib.Core.Path.{fun_ext}
use opake.Records.{UnreadableReason, UnreadableRef, Keyring}
use opake.Workspace.{KeyringCrypto}
use opake.Events.{
  IndexerEnvelope, keyring_workspace_id, SseEvent, CorruptScope, keyring_scope, keyring_upsert,
  keyring_delete, corrupt_record, KeyringDeleteOutcome, rolled_back, torn_down, unchanged,
  deleted_workspace_id, SseKeyringDeletePayload,
}
use opake.Keepers.{Keeper, Fired}
use opake.Keepers.Runs.{
  KeeperOp, put, drop, withdraw, ignore, apply, acts, entry_effect, signal_effect,
}
use opake.Keepers.Signals.{signal_in_scope, signal_op, signal_law, signal_quiet}
use opake.Keepers.Gate.{
  BootstrapGate, synced, Handler, unless_captured, if_current, installed, bootstrap_during, consume,
  converged, reached,
}
use opake.Keepers.Workspaces.{
  WorkspaceEntry, workspace_listing, EntryOutcome, entry, not_member, unreadable_wrap,
  identity_mismatch, try_build_entry, apply_keyring_record, apply_keyring_delete, deleted_by,
}

abbrev pub is_keyring_scope : CorruptScope → Bool
is_keyring_scope keyring_scope = true
is_keyring_scope _ = false

abbrev pub record_op : Str → EntryOutcome → KeeperOp WorkspaceEntry
record_op workspace_id (entry e) = put e
record_op workspace_id not_member = drop workspace_id
record_op workspace_id (unreadable_wrap uri) = withdraw workspace_id uri
record_op workspace_id identity_mismatch = ignore

abbrev pub delete_op : KeyringDeleteOutcome → Str → KeeperOp WorkspaceEntry
delete_op torn_down workspace_id = drop workspace_id
delete_op rolled_back workspace_id = ignore
delete_op unchanged workspace_id = ignore

-- The caller: the DID, and the private keys if the identity holds them.
module _ {Key PrivateKeys : Type 0} (c : KeyringCrypto Key PrivateKeys) (my_did : Str)
    (owned : Option PrivateKeys) where
  module _ {Callback : Type 0} (current : Bool) where
    abbrev adopt :
        Option PrivateKeys
        → IndexerEnvelope Keyring
        → Keeper WorkspaceEntry Callback
        → Fired WorkspaceEntry Callback
    adopt none env k = (k, [])
    adopt (some keys) env k =
        if_current current
          (λ (k : Keeper WorkspaceEntry Callback).
            apply_keyring_record k (keyring_workspace_id env) (try_build_entry c env my_did keys))
          k

    unfoldable pub apply_keyring_to_workspace_keeper : Handler SseEvent WorkspaceEntry Callback
    apply_keyring_to_workspace_keeper gate k (keyring_upsert env) =
        unless_captured gate k (keyring_upsert env) (adopt owned env)
    apply_keyring_to_workspace_keeper gate k (keyring_delete p) =
        unless_captured gate k (keyring_delete p)
          (if_current current (λ (k : Keeper WorkspaceEntry Callback). apply_keyring_delete k p))
    apply_keyring_to_workspace_keeper gate k (corrupt_record r) =
        signal_in_scope current gate k (corrupt_record r) (is_keyring_scope r.scope) r.uri r.reason
    apply_keyring_to_workspace_keeper gate k other = synced gate (k, [])

  abbrev pub adopt_op : Option PrivateKeys → IndexerEnvelope Keyring → KeeperOp WorkspaceEntry
  adopt_op none env = ignore
  adopt_op (some keys) env =
      record_op (keyring_workspace_id env) (try_build_entry c env my_did keys)

  -- What an event asks of the list.
  unfoldable pub workspace_op : SseEvent → KeeperOp WorkspaceEntry
  workspace_op (keyring_upsert env) = adopt_op owned env
  workspace_op (keyring_delete p) = delete_op p.outcome (deleted_workspace_id p)
  workspace_op (corrupt_record r) = signal_op (is_keyring_scope r.scope) r.uri r.reason
  workspace_op other = ignore

abbrev pub concerns_workspaces : SseEvent → Bool
concerns_workspaces (keyring_upsert env) = true
concerns_workspaces (keyring_delete p) = true
concerns_workspaces (corrupt_record r) = is_keyring_scope r.scope && is_some r.uri
concerns_workspaces other = false

module _ {Callback : Type 0} where
  record_law :
      (k : Keeper WorkspaceEntry Callback) (id : Str) (o : EntryOutcome)
      → apply_keyring_record k id o ≡ apply k (record_op id o)
  unfolding apply apply_keyring_record
  record_law k id (entry e) = refl
  record_law k id not_member = refl
  record_law k id (unreadable_wrap u) = refl
  record_law k id identity_mismatch = refl

  delete_law :
      (k : Keeper WorkspaceEntry Callback) (p : SseKeyringDeletePayload)
      → apply_keyring_delete k p ≡ apply k (delete_op p.outcome (deleted_workspace_id p))
  unfolding apply apply_keyring_delete
  delete_law k p = by_outcome k p.outcome (deleted_workspace_id p)
    where
      by_outcome :
          (k : Keeper WorkspaceEntry Callback) (o : KeyringDeleteOutcome) (id : Str)
          → deleted_by o id k ≡ apply k (delete_op o id)
      by_outcome k torn_down id = refl
      by_outcome k rolled_back id = refl
      by_outcome k unchanged id = refl

quiet :
    {Key PrivateKeys : Type 0} (c : KeyringCrypto Key PrivateKeys) (my_did : Str)
    (owned : Option PrivateKeys) (e : SseEvent)
    → concerns_workspaces e ≡ false
    → workspace_op c my_did owned e ≡ ignore
unfolding workspace_op
quiet c my_did owned (keyring_upsert env) h = cc h
quiet c my_did owned (keyring_delete p) h = cc h
quiet c my_did owned (corrupt_record r) h = signal_quiet (is_keyring_scope r.scope) r.uri r.reason h
quiet c my_did owned (SseEvent.directory_upsert x) h = refl
quiet c my_did owned (SseEvent.directory_delete x) h = refl
quiet c my_did owned (SseEvent.document_upsert x) h = refl
quiet c my_did owned (SseEvent.document_delete x) h = refl
quiet c my_did owned (SseEvent.grant_upsert x) h = refl
quiet c my_did owned (SseEvent.grant_delete x) h = refl
quiet c my_did owned (SseEvent.chain_forked x) h = refl
quiet c my_did owned SseEvent.reconnect h = refl

module _ {Key PrivateKeys Callback : Type 0} (c : KeyringCrypto Key PrivateKeys)
    (my_did : Str) where
  adopt_law :
      (owned : Option PrivateKeys) (env : IndexerEnvelope Keyring)
      (k : Keeper WorkspaceEntry Callback)
      → adopt c my_did owned true owned env k ≡ apply k (adopt_op c my_did owned owned env)
  unfolding apply
  adopt_law none env k = refl
  adopt_law (some keys) env k =
      record_law k (keyring_workspace_id env) (try_build_entry c env my_did keys)

  law :
      (owned : Option PrivateKeys) (g : BootstrapGate SseEvent) (k : Keeper WorkspaceEntry Callback)
      (e : SseEvent)
      → apply_keyring_to_workspace_keeper c my_did owned true g k e
        ≡ consume concerns_workspaces (workspace_op c my_did owned) g k e
  unfolding apply_keyring_to_workspace_keeper workspace_op
  law owned g k (keyring_upsert env) =
      ap (unless_captured g k (keyring_upsert env)) (fun_ext (adopt_law owned env))
  law owned g k (keyring_delete p) =
      ap (unless_captured g k (keyring_delete p)) (fun_ext (λ k. delete_law k p))
  law owned g k (corrupt_record r) =
      signal_law g k (corrupt_record r) (is_keyring_scope r.scope) r.uri r.reason
  law owned g k (SseEvent.directory_upsert x) = refl
  law owned g k (SseEvent.directory_delete x) = refl
  law owned g k (SseEvent.document_upsert x) = refl
  law owned g k (SseEvent.document_delete x) = refl
  law owned g k (SseEvent.grant_upsert x) = refl
  law owned g k (SseEvent.grant_delete x) = refl
  law owned g k (SseEvent.chain_forked x) = refl
  law owned g k SseEvent.reconnect = refl

  module _ (owned : Option PrivateKeys) (gate : BootstrapGate SseEvent)
      (k : Keeper WorkspaceEntry Callback) where
    -- The list after a bootstrap, with all the events arriving during the fetch.
    abbrev pub bootstrapped_workspaces :
        List SseEvent
        → Option (List WorkspaceEntry × List UnreadableRef)
        → Keeper WorkspaceEntry Callback
    bootstrapped_workspaces events fetched =
        (bootstrap_during (apply_keyring_to_workspace_keeper c my_did owned true) gate k events
          fetched).keeper

    pub workspaces_converge :
        (seen later : List SseEvent) (fetched : Option (List WorkspaceEntry × List UnreadableRef))
        (entries : Str → Option WorkspaceEntry) (unreadable : Str → Option UnreadableReason)
        (u : Str)
        → get (installed k fetched).0.entries u
          ≡ acts (entry_effect u) (map (workspace_op c my_did owned) seen) (entries u)
        → get (installed k fetched).0.unreadable u
          ≡ acts (signal_effect u) (map (workspace_op c my_did owned) seen) (unreadable u)
        → (get (bootstrapped_workspaces (seen ++ later) fetched).entries u
            ≡ acts (entry_effect u) (map (workspace_op c my_did owned) (seen ++ later)) (entries u))
          × (get (bootstrapped_workspaces (seen ++ later) fetched).unreadable u
              ≡ acts
                  (signal_effect u)
                  (map (workspace_op c my_did owned) (seen ++ later))
                  (unreadable u))
    workspaces_converge seen later fetched entries unreadable u =
        converged concerns_workspaces (workspace_op c my_did owned)
          (apply_keyring_to_workspace_keeper c my_did owned true) (law owned) (quiet c my_did owned)
          gate k seen later fetched entries unreadable u

    -- What a bootstrap ends in, from the snapshot and the events.
    pub workspaces-reached :
        (events : List SseEvent) (fetched : Option (List WorkspaceEntry × List UnreadableRef))
        (u : Str)
        → get (bootstrapped_workspaces events fetched).entries u
          ≡ acts
              (entry_effect u)
              (map (workspace_op c my_did owned) events)
              (get (installed k fetched).0.entries u)
    workspaces-reached events fetched u =
        (reached concerns_workspaces (workspace_op c my_did owned)
          (apply_keyring_to_workspace_keeper c my_did owned true) (law owned) (quiet c my_did owned)
          gate k events fetched u).0
