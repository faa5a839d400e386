-- ===== src/TreeKeeper/Placed.antt =====
-- The state of indexer/tree_keeper/mod.rs over any event: which kind of tree stands where, and the
-- handles.
use opake.Base.{
  Bool, true, false, option_eq, Option, none, some, Str, Eq, get, str_eq, nat_eq, Option-cases, inl,
  inr, unwrap_or,
}
use opake.Records.{Directory, Keyring}
use opake.Events.{IndexerEnvelope, SseEvent}
use opake.Tree.{DirectoryInfo}
use opake.Tree.Names.{Crypto, decrypt_directory_name}
use opake.Tree.Apply.{apply_directory_delta, apply_directory_delete}
use opake.Tree.Apply.Deltas.{
  apply_directory_delta-IsWellFormed, apply_directory_delete-IsWellFormed,
}
use opake.Workspace.{KeyringCrypto}
use opake.TreeKeeper.{
  HeldTree, held_cabinet, held_workspace, TreeScope, cabinet_scope, workspace_scope, TreeKeeper,
  tree_of, held_for_scope, scope_from_keyring_uri,
}
use opake.TreeKeeper.Adopt.{adopt_keyring_rotation, adopt_held}
use opake.TreeKeeper.Apply.{
  apply_corrupt_record, cabinet_ctx, workspace_ctx, upsert_into, apply_directory_upsert,
  adopt_and_tell, apply_event,
}
use opake.TreeKeeper.Places.{
  IsPlacedAt, OnSome, Returns, IsPlaced, get-IsWorkspace, held_for_scope-IsPlacedAt,
  set_held-IsPlaced, tree_of-IsWellFormed, delete-IsPlaced, corrupt-IsPlaced, told_change,
}
use opake.TreeKeeper.Adopted.{adopt_held-IsWellFormed}

module _ {Key PrivateKeys Callback : Type 0} (c : Crypto Key PrivateKeys) where
  changed-Returns :
      (k : TreeKeeper Key PrivateKeys Callback) (scope : TreeScope)
      (env : IndexerEnvelope Directory) (deleted : Bool) (o : Option (HeldTree Key PrivateKeys))
      → IsPlaced k
      → OnSome (IsPlacedAt scope) o
      → Returns IsPlaced (upsert_into c k scope env deleted o)
  changed-Returns k scope env deleted none p a = p
  changed-Returns k scope env true (some h) p a =
      told_change k scope h (apply_directory_delete (tree_of h) env.uri) p a
        (apply_directory_delete-IsWellFormed (tree_of h) env.uri (tree_of-IsWellFormed scope h a))
  changed-Returns k cabinet_scope env false (some (held_cabinet t s)) p a =
      let decrypt =
        λ (u : Str) (i : DirectoryInfo). decrypt_directory_name c u i (cabinet_ctx c k.did s) in
      told_change k cabinet_scope (held_cabinet t s)
        (apply_directory_delta decrypt t env.uri env.body) p a
        (apply_directory_delta-IsWellFormed decrypt t env.uri env.body a)
  changed-Returns k cabinet_scope env false (some (held_workspace w)) p a = absurd a
  changed-Returns k (workspace_scope u) env false (some (held_cabinet t s)) p a = absurd a
  changed-Returns k (workspace_scope u) env false (some (held_workspace w)) p a =
      let decrypt =
        λ (v : Str) (i : DirectoryInfo). decrypt_directory_name c v i (workspace_ctx c k.did u w) in
      told_change k (workspace_scope u) (held_workspace w)
        (apply_directory_delta decrypt w.tree env.uri env.body) p a
        (apply_directory_delta-IsWellFormed decrypt w.tree env.uri env.body a)

  upsert-Returns :
      (k : TreeKeeper Key PrivateKeys Callback) (env : IndexerEnvelope Directory) (deleted : Bool)
      → IsPlaced k
      → Returns IsPlaced (apply_directory_upsert c k env deleted)
  unfolding apply_directory_upsert
  upsert-Returns k env deleted p =
      let scope = scope_from_keyring_uri env.body.workspace_id in
      changed-Returns k scope env deleted (held_for_scope k scope) p
        (held_for_scope-IsPlacedAt k scope p)

  module _ (w : KeyringCrypto Key PrivateKeys) ⦃e : Eq Key⦄ where
    adopt-IsPlaced :
        (k : TreeKeeper Key PrivateKeys Callback) (uri : Str) (env : IndexerEnvelope Keyring)
        → IsPlaced k
        → IsPlaced (adopt_and_tell c w k uri env).0
    unfolding adopt_keyring_rotation
    adopt-IsPlaced k uri env p =
        let a =
          adopt_held-IsWellFormed c w (get k.workspaces uri) uri k.did env
            (get-IsWorkspace k.workspaces uri p.workspaces_placed) in
        elim (Option-cases (adopt_held c w (get k.workspaces uri) uri k.did env)) [
          | inl q ↦ rw (q, adopt_keyring_rotation) p
          | inr (t, q) ↦
              rw (q, adopt_keyring_rotation)
                (set_held-IsPlaced k (workspace_scope uri) (held_workspace t) (rw q at a) p)
        ]

    -- Every event is applied without reaching the unreachable branch, and leaves a cabinet's tree
    -- in the cabinet's slot and workspaces' trees in the others, no tree with a URI both readable
    -- and a placeholder, and each handle given out before and standing for one watcher, if the
    -- state was so.
    pub apply_event-Returns :
        (k : TreeKeeper Key PrivateKeys Callback) (event : SseEvent)
        → IsPlaced k
        → Returns IsPlaced (apply_event c w k event)
    unfolding apply_event apply_corrupt_record
    apply_event-Returns k (SseEvent.directory_upsert env) p = upsert-Returns k env false p
    apply_event-Returns k (SseEvent.directory_delete uri) p = delete-IsPlaced k uri p
    apply_event-Returns k (SseEvent.document_upsert env) p = p
    apply_event-Returns k (SseEvent.document_delete uri) p = p
    apply_event-Returns k (SseEvent.keyring_upsert env) p =
        adopt-IsPlaced k (unwrap_or env.body.lineage env.uri) env p
    apply_event-Returns k (SseEvent.keyring_delete d) p = p
    apply_event-Returns k (SseEvent.grant_upsert env) p = p
    apply_event-Returns k (SseEvent.grant_delete uri) p = p
    apply_event-Returns k (SseEvent.corrupt_record r) p =
        corrupt-IsPlaced k (record { uri = r.uri; reason = r.reason }) r.scope r.uri p
    apply_event-Returns k (SseEvent.chain_forked f) p = p
    apply_event-Returns k SseEvent.reconnect p = p
