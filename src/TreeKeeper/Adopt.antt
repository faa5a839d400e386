-- ===== src/TreeKeeper/Adopt.antt =====
-- `adopt_keyring_rotation` of indexer/tree_keeper/mod.rs: a live tree takes the keys of a keyring
-- event.
use opake.Base.{
  ℕ, Bool, true, false, ◌&&◌, not, Option, none, some, List, [], ◌∷◌, Str, Eq, ◌==◌, str_eq, nat_eq,
  option_eq, get, if◌then◌else◌,
}
use opake.Records.{Keyring, KeyringMember}
use opake.Events.{IndexerEnvelope}
use opake.Tree.Names.{Crypto, HistoricalKey, GroupKeys, decrypt_names_with_group_keys}
use opake.Workspace.{
  KeyringCrypto, lineage_anchor, find_member, verify_workspace_identity, derive_historical_keys,
}
use opake.TreeKeeper.{
  WorkspaceTree, HeldTree, held_cabinet, held_workspace, workspace_scope, TreeKeeper, set_held,
}

abbrev pub view_of : {Key PrivateKeys : Type 0} → WorkspaceTree Key PrivateKeys → GroupKeys Key
view_of t = record {
  current_rotation = t.rotation;
  current = t.group_key;
  historical = t.historical_keys;
}

module _ {Key PrivateKeys : Type 0} (c : Crypto Key PrivateKeys) (w : KeyringCrypto Key PrivateKeys)
    ⦃e : Eq Key⦄ where
  -- A wrap that does not unwrap leaves the current key unknown.
  abbrev pub event_group_key : PrivateKeys → IndexerEnvelope Keyring → KeyringMember → Option Key
  event_group_key keys env member = elim member.wrapped_key [
    | none ↦ none
    | some wrap ↦ w.unwrap_key keys wrap (lineage_anchor env.body env.uri) env.body.opake_version
  ]

  abbrev pub same_history : List (HistoricalKey Key) → List (HistoricalKey Key) → Bool
  same_history [] [] = true
  same_history [] (h ∷ hs) = false
  same_history (h ∷ hs) [] = false
  same_history (h ∷ hs) (g ∷ gs) =
      (h.rotation == g.rotation && h.key == g.key) && same_history hs gs

  -- The tree with the keys, its names decrypted again with them.
  abbrev pub adopted :
      WorkspaceTree Key PrivateKeys
      → Str
      → Str
      → Option Key
      → ℕ
      → List (HistoricalKey Key)
      → WorkspaceTree Key PrivateKeys
  adopted t keyring_uri did group_key rotation historical =
      let held = record t {
        group_key = group_key;
        rotation = rotation;
        historical_keys = historical;
      } in
      record held {
        tree = decrypt_names_with_group_keys c t.tree did t.keys ((keyring_uri, view_of held) ∷ []);
      }

  -- `none` where the projection is left alone: an identity that is not proved, or the same keys.
  abbrev pub with_keys :
      WorkspaceTree Key PrivateKeys
      → Str
      → Str
      → IndexerEnvelope Keyring
      → Option Key
      → List (HistoricalKey Key)
      → Option (WorkspaceTree Key PrivateKeys)
  with_keys t keyring_uri did env group_key historical =
      if not (
        verify_workspace_identity w env.body (lineage_anchor env.body env.uri) group_key historical)
      then none
      else if t.rotation == env.body.rotation
          && (t.group_key == group_key && same_history t.historical_keys historical)
      then none
      else some (adopted t keyring_uri did group_key env.body.rotation historical)

  unfoldable pub adopt_into :
      WorkspaceTree Key PrivateKeys
      → Str
      → Str
      → IndexerEnvelope Keyring
      → Option (WorkspaceTree Key PrivateKeys)
  adopt_into t keyring_uri did env = elim (find_member did env.body.members) [
    | none ↦ none
    | some member ↦
        with_keys t keyring_uri did env (event_group_key t.keys env member)
          (derive_historical_keys w env.body did env.uri t.keys)
  ]

  abbrev pub adopt_held :
      Option (HeldTree Key PrivateKeys)
      → Str
      → Str
      → IndexerEnvelope Keyring
      → Option (WorkspaceTree Key PrivateKeys)
  adopt_held none keyring_uri did env = none
  adopt_held (some (held_cabinet tree keys)) keyring_uri did env = none
  adopt_held (some (held_workspace t)) keyring_uri did env = adopt_into t keyring_uri did env

  -- Whether the rotation was adopted, and watchers should be told.
  unfoldable pub adopt_keyring_rotation :
      {Callback : Type 0}
      → TreeKeeper Key PrivateKeys Callback
      → Str
      → Str
      → IndexerEnvelope Keyring
      → TreeKeeper Key PrivateKeys Callback × Bool
  adopt_keyring_rotation k keyring_uri did env =
      elim (adopt_held (get k.workspaces keyring_uri) keyring_uri did env) [
        | none ↦ (k, false)
        | some t ↦ (set_held k (workspace_scope keyring_uri) (held_workspace t), true)
      ]
