-- ===== src/Keepers/Shown.antt =====
-- The entries that a bootstrap of the list of workspaces shows, of indexer/workspace_keeper/mod.rs and
-- crates/opake-wasm, sse_wasm.rs.
use opake.Base.{
  ◌≡◌, ◌⊎◌, refl, sym, ap, inl, inr, some, List, [], ◌∷◌, Str, str_eq, ◌==◌, Map, get, insert,
  insert_all, get-insert, map, Elem, arith, Bool-cases,
}
use opake.Records.{Keyring, UnreadableRef}
use opake.Workspace.{KeyringCrypto}
use opake.Events.{IndexerEnvelope, SseEvent, keyring_upsert}
use opake.Keepers.{Keeper, bootstrap_with_signals}
use opake.Keepers.Gate.{BootstrapGate, installed}
use opake.Keepers.Workspaces.{
  WorkspaceEntry, workspace_listing, EntryOutcome, entry, not_member, unreadable_wrap,
  identity_mismatch, try_build_entry, entries_with, unreadable_with, fetch_workspace_entries,
}
use opake.Keepers.Keyrings.{bootstrapped_workspaces}
use opake.Keepers.Verified.{Proves, try_build_entry-Proves, entries-ProvedBy}

abbrev keyed : List WorkspaceEntry → List (Str × WorkspaceEntry)
keyed = map (λ e. (e.workspace_id, e))

collected-Elem :
    (m : Map Str WorkspaceEntry) (es : List WorkspaceEntry) (u : Str) (e : WorkspaceEntry)
    → get (insert_all m (keyed es)) u ≡ some e
    → (get m u ≡ some e) ⊎ Elem e es
collected-Elem m [] u e h = inl h
collected-Elem m (x ∷ es) u e h = elim (collected-Elem (insert m x.workspace_id x) es u e h) [
  | inr k ↦ inr (inr k)
  | inl k ↦ elim (Bool-cases (x.workspace_id == u)) [
    | inl q ↦ inr (inl (ground (arith, get-insert m x.workspace_id u x, q, k)))
    | inr q ↦ inl (ground (arith, get-insert m x.workspace_id u x, q, k))
  ]
]

entries_with-Elem :
    (o : EntryOutcome) (es : List WorkspaceEntry) (e : WorkspaceEntry)
    → Elem e (entries_with o es)
    → (o ≡ entry e) ⊎ Elem e es
entries_with-Elem (entry x) es e (inl q) = inl (ap entry (sym q))
entries_with-Elem (entry x) es e (inr k) = inr k
entries_with-Elem not_member es e k = inr k
entries_with-Elem (unreadable_wrap u) es e k = inr k
entries_with-Elem identity_mismatch es e k = inr k

module _ {Key PrivateKeys : Type 0} (c : KeyringCrypto Key PrivateKeys) (did : Str)
    (keys : PrivateKeys) where
  fetched-Proves :
      (envs : List (IndexerEnvelope Keyring)) (refs : List UnreadableRef) (e : WorkspaceEntry)
      → Elem e (fetch_workspace_entries c did keys envs refs).0
      → (env : IndexerEnvelope Keyring) × Elem env envs × Proves c did keys e env
  unfolding fetch_workspace_entries
  fetched-Proves [] refs e h = absurd h
  fetched-Proves (env ∷ envs) refs e h =
      let outcome = try_build_entry c env did keys in
      elim (entries_with-Elem outcome
        (fetch_workspace_entries c did keys envs (unreadable_with outcome refs)).0 e h) [
          | inl q ↦ (env, inl refl, try_build_entry-Proves c did keys env e q)
          | inr k ↦
              let (x, m, p) = fetched-Proves envs (unreadable_with outcome refs) e k in
              (x, inr m, p)
        ]

  module _ {Callback : Type 0} (gate : BootstrapGate SseEvent)
      (k : Keeper WorkspaceEntry Callback) where
    installed-Proves :
        (envs : List (IndexerEnvelope Keyring)) (refs : List UnreadableRef) (u : Str)
        (e : WorkspaceEntry)
        → get (installed k (some (fetch_workspace_entries c did keys envs refs))).0.entries u
          ≡ some e
        → (env : IndexerEnvelope Keyring) × Elem env envs × Proves c did keys e env
    unfolding bootstrap_with_signals get
    installed-Proves envs refs u e h =
        elim (collected-Elem [] (fetch_workspace_entries c did keys envs refs).0 u e h) [
          | inl q ↦ absurd (ground (arith, q))
          | inr m ↦ fetched-Proves envs refs e m
        ]

    -- After a bootstrap whose fetch succeeded, whatever events arrived meanwhile, each workspace
    -- in the list was built from a keyring of the fetched listing or of those events that lists
    -- the caller and has the entry's identity and head; that identity is a URI whose record key is
    -- the tag of the key of rotation 0, which the caller unwraps, under the lineage, from the
    -- keyring's members if it was never rotated and else from its history; and a keyring that
    -- declares a lineage supersedes another.
    pub shown-Proves :
        (events : List SseEvent) (envs : List (IndexerEnvelope Keyring)) (refs : List UnreadableRef)
        (u : Str) (e : WorkspaceEntry)
        → get
            (bootstrapped_workspaces c did
              (some keys)
              gate
              k
              events
              (some (fetch_workspace_entries c did keys envs refs))).entries
            u
          ≡ some e
        → (env : IndexerEnvelope Keyring) × (Elem env envs ⊎ Elem (keyring_upsert env) events)
          × Proves c did keys e env
    shown-Proves events envs refs u e h =
        elim (entries-ProvedBy c did keys gate k events
          (some (fetch_workspace_entries c did keys envs refs)) u e h) [
            | inl q ↦ let (env, m, p) = installed-Proves envs refs u e q in (env, inl m, p)
            | inr (env, m, p) ↦ (env, inr m, p)
          ]
