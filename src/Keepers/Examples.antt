-- ===== src/Keepers/Examples.antt =====
-- Runs of the inbox and of the list of workspaces.
use opake.Base.{
  Elem, remove, ◌≡◌, ◌⊎◌, refl, ℕ, true, none, some, [], ◌∷◌, Str, codes, str_eq, str_beq,
  str_beq_iff, get, insert, map, arith,
}
use opake.Records.{Keyring}
use opake.Events.{IndexerEnvelope, grant_delete, keyring_upsert, keyring_workspace_id}
use opake.Keepers.{bootstrap_with_signals, Keeper, new_keeper, snapshot, notify, upsert, clear}
use opake.Base.Order.{sort_by, insert_sorted}
use opake.Atproto.{parse_at_uri, parse_segments, strip_prefix, split_once}
use opake.Tree.Names.{for_rotation}
use opake.Workspace.{lineage_anchor, derive_historical_keys, verify_workspace_identity}
use opake.Workspace.Examples.{crypto, genesis, genesis_uri}
use opake.Keepers.Workspaces.{
  fetch_workspace_entries, same_workspace_entry, WorkspaceEntry, workspace_listing, try_build_entry,
  apply_keyring_record,
}
use opake.Keepers.Keyrings.{apply_keyring_to_workspace_keeper, bootstrapped_workspaces}
use opake.Keepers.Verified.{Proves}
use opake.Keepers.Shown.{shown-Proves}
use opake.Keepers.Runs.{put, apply, acts, entry_effect, signal_effect}
use opake.Keepers.Snapshots.{IsWellFormed, snapshot_determined}
use opake.Keepers.Firing.{FiresExactly, apply-FiresExactly}
use opake.Keepers.Gate.{
  new_gate, bootstrap_during, begin, receive, complete, finish, capture_if_active,
}
use opake.Keepers.Inbox.{
  InboxEntry, inbox_listing, inbox_op, bootstrapped_inbox, bootstrap_converges,
}

abbrev shared : Str → InboxEntry
shared uri = record { uri = uri; author_did = []; document_uri = []; created_at = [] }

abbrev a : Str
a = codes "a"

abbrev b : Str
b = codes "b"

abbrev two : Str → Str → Keeper InboxEntry ℕ
two u v = record {
  entries = (u, shared u) ∷ (v, shared v) ∷ [];
  unreadable = [];
  watchers = (0, 7) ∷ [];
  next_watcher_id = 1;
  loaded = true;
}

a-first : IsWellFormed (two a b)
unfolding get str_beq
a-first = record {
  keyed = (refl, (refl, tt));
  entries_unique = (refl, (refl, tt));
  unreadable_unique = tt;
}

b-first : IsWellFormed (two b a)
unfolding get str_beq
b-first = record {
  keyed = (refl, (refl, tt));
  entries_unique = (refl, (refl, tt));
  unreadable_unique = tt;
}

either_order : (u : Str) → get (two a b).entries u ≡ get (two b a).entries u
unfolding get str_beq
either_order u = ground (arith, str_beq_iff a u, str_beq_iff b u)

snapshot_determined_example : snapshot (two a b) ≡ snapshot (two b a)
snapshot_determined_example =
    snapshot_determined (two a b) (two b a) a-first b-first either_order (λ u. refl) refl

apply-FiresExactly_example : FiresExactly (two a b) (apply (two a b) (put (shared (codes "c"))))
apply-FiresExactly_example = apply-FiresExactly (two a b) (put (shared (codes "c")))

-- The snapshot was taken before both events.
bootstrap_converges_example :
    (get
        (bootstrapped_inbox {Callback = ℕ} [] new_gate
          (two a b)
          []
          (grant_delete a ∷ grant_delete b ∷ [])
          none).entries
        a
      ≡ acts
          (entry_effect a)
          (map (inbox_op []) (grant_delete a ∷ grant_delete b ∷ []))
          (get (two a b).entries a))
    × (get
          (bootstrapped_inbox {Callback = ℕ} [] new_gate
            (two a b)
            []
            (grant_delete a ∷ grant_delete b ∷ [])
            none).unreadable
          a
        ≡ acts (signal_effect a) (map (inbox_op []) (grant_delete a ∷ grant_delete b ∷ [])) none)
unfolding get
bootstrap_converges_example =
    bootstrap_converges [] new_gate (two a b) [] (grant_delete a ∷ grant_delete b ∷ []) none
      (λ u. get (two a b).entries u) (λ u. none) a refl refl

abbrev at_genesis : IndexerEnvelope Keyring
at_genesis = record { uri = genesis_uri; body = genesis; indexed_at = []; deleted_at = none }

abbrev genesis_entry : WorkspaceEntry
genesis_entry = record {
  workspace_id = genesis_uri;
  head_uri = genesis_uri;
  rotation = 0;
  member_count = 1;
  created_at = some [];
  name = none;
  description = none;
  icon = none;
  my_role = some (codes "editor");
}

abbrev after_bootstrap : Keeper WorkspaceEntry ℕ
after_bootstrap =
    bootstrapped_workspaces crypto (codes "me") (some 0) new_gate new_keeper
      (keyring_upsert at_genesis ∷ [])
      (some (fetch_workspace_entries crypto (codes "me") 0 (at_genesis ∷ []) []))

listed_entry : get after_bootstrap.entries genesis_uri ≡ some genesis_entry
unfolding get insert str_beq bootstrap_during begin receive complete finish capture_if_active
    apply_keyring_to_workspace_keeper apply_keyring_record try_build_entry lineage_anchor
    derive_historical_keys verify_workspace_identity for_rotation upsert clear keyring_workspace_id
    parse_at_uri parse_segments strip_prefix split_once snapshot notify sort_by insert_sorted
    fetch_workspace_entries bootstrap_with_signals same_workspace_entry remove
listed_entry = refl

shown-Proves_example :
    (env : IndexerEnvelope Keyring) × (Elem env (at_genesis ∷ [])
      ⊎ Elem (keyring_upsert env) (keyring_upsert at_genesis ∷ []))
    × Proves crypto (codes "me") 0 genesis_entry env
shown-Proves_example =
    shown-Proves crypto (codes "me") 0 new_gate new_keeper (keyring_upsert at_genesis ∷ [])
      (at_genesis ∷ []) [] genesis_uri genesis_entry listed_entry
