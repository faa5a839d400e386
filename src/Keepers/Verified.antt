-- ===== src/Keepers/Verified.antt =====
-- What an entry of the list of workspaces stands on, of indexer/workspace_keeper/mod.rs and
-- workspace.rs.
use opake.Base.{
  ◌≡◌, ◌≢◌, ◌⊎◌, refl, find, find-some, nat_eq, unwrap_or, sym, ◌∙◌, inl, inr, Bool, true, false,
  Option, none, some, List, [], ◌∷◌, Str, ◌==◌, str_eq, str_beq_iff, map, get, Elem, Bool-cases,
  Option-cases, arith,
}
use opake.Error.{ok, Result-cases}
use opake.Atproto.{AtUri, parse_at_uri}
use opake.Records.{
  Keyring, KeyringMember, KeyHistoryEntry, WrappedKey, UnreadableReason, UnreadableRef,
}
use opake.Tree.Names.{HistoricalKey, GroupKeys, for_rotation}
use opake.Workspace.{
  KeyringCrypto, lineage_anchor, verify_workspace_identity, derive_historical_keys, find_member,
  tag_matches, history_key, history_keys,
}
use opake.Events.{
  IndexerEnvelope, keyring_workspace_id, SseEvent, keyring_upsert, keyring_delete, corrupt_record,
  KeyringDeleteOutcome, torn_down, rolled_back, unchanged, deleted_workspace_id,
}
use opake.Keepers.{Keeper}
use opake.Keepers.Runs.{KeeperOp, put, drop, mark, withdraw, ignore, act, acts, entry_effect}
use opake.Keepers.Signals.{signal_op}
use opake.Keepers.Gate.{BootstrapGate, installed}
use opake.Keepers.Workspaces.{
  WorkspaceEntry, workspace_listing, EntryOutcome, entry, not_member, unreadable_wrap,
  identity_mismatch, try_build_entry, verified_entry, wrapped_entry, current_wrap, CurrentWrap,
  no_wrap, bad_wrap, good_wrap,
}
use opake.Keepers.Keyrings.{
  workspace_op, record_op, delete_op, is_keyring_scope, bootstrapped_workspaces, workspaces-reached,
}

module _ {Key PrivateKeys : Type 0} (c : KeyringCrypto Key PrivateKeys) where
  -- The record key of the anchor is the tag of the first group key and the authority.
  abbrev Derives : Keyring → Str → Option Key → List (HistoricalKey Key) → Type 0
  Derives k id current historical =
      (u : AtUri) × (first : Key) × (parse_at_uri id ≡ ok u)
      × (for_rotation
            (record { current_rotation = k.rotation; current = current; historical = historical }) 0
          ≡ some first)
      × (c.derive_workspace_identity_tag first u.authority ≡ u.rkey)

  tag_matches-Derives :
      (k : Keyring) (id : Str) (current : Option Key) (historical : List (HistoricalKey Key))
      → tag_matches c (parse_at_uri id) (
          for_rotation
            (record { current_rotation = k.rotation; current = current; historical = historical })
            0)
        ≡ true
      → Derives k id current historical
  tag_matches-Derives k id current historical h =
      let keys : GroupKeys Key = record {
        current_rotation = k.rotation;
        current = current;
        historical = historical;
      } in
      elim (Result-cases (parse_at_uri id)) [
        | inl (e, p) ↦ absurd (ground (arith, rw p at h))
        | inr (u, p) ↦ elim (Option-cases (for_rotation keys 0)) [
          | inl q ↦ absurd (ground (arith, p, q, h))
          | inr (key, q) ↦ (
            u,
            key,
            p,
            q,
            (str_beq_iff (c.derive_workspace_identity_tag key u.authority) u.rkey).0
                (ground (arith, p, q, h)),
          )
        ]
      ]

  verified-Derives :
      (k : Keyring) (id : Str) (current : Option Key) (historical : List (HistoricalKey Key))
      → verify_workspace_identity c k id current historical ≡ true
      → Derives k id current historical
  unfolding verify_workspace_identity
  verified-Derives k id current historical h =
      tag_matches-Derives k id current historical (ground (arith, h))

pub elem_find_member :
    (did : Str) (ms : List KeyringMember) (m : KeyringMember)
    → find_member did ms ≡ some m
    → Elem m ms × (m.did ≡ did)
elem_find_member did ms m h =
    let (e, p) = find-some (λ x. x.did == did) ms m h in (e, (str_beq_iff m.did did).0 p)

module _ {Key PrivateKeys : Type 0} (c : KeyringCrypto Key PrivateKeys) (did : Str)
    (keys : PrivateKeys) where
  -- The caller stands among the members with a wrap, and unwraps the key from it under the anchor
  -- of the record's lineage and its version.
  pub record Unwraps (env : IndexerEnvelope Keyring) (members : List KeyringMember) (key : Key)
      : Type 0 where
    pub member : KeyringMember
    pub listed : Elem member members
    pub called : member.did ≡ did
    pub wrap : WrappedKey
    pub wrapped : member.wrapped_key ≡ some wrap
    pub unwrapped :
        c.unwrap_key keys wrap (unwrap_or env.body.lineage env.uri) env.body.opake_version
        ≡ some key

  -- The key of rotation 0: of the members of a keyring that was never rotated, or of the members
  -- that its history has for rotation 0.
  abbrev pub IsFirstKey : IndexerEnvelope Keyring → Key → Type 0
  IsFirstKey env key =
      ((env.body.rotation ≡ 0) × Unwraps env env.body.members key)
      ⊎ ((env.body.rotation ≢ 0)
          × (past : KeyHistoryEntry) × Elem past env.body.key_history
          × (past.rotation ≡ 0)
          × Unwraps env past.members key)

  -- The envelope makes the entry, and its identity is proved by the first key, which the caller
  -- unwraps.
  pub record Proves (e : WorkspaceEntry) (env : IndexerEnvelope Keyring) : Type 0 where
    pub identity : e.workspace_id ≡ unwrap_or env.body.lineage env.uri
    pub head : e.head_uri ≡ env.uri
    pub member : KeyringMember
    pub listed : Elem member env.body.members
    pub called : member.did ≡ did
    pub chained : (env.body.lineage ≢ none) → env.body.supersedes ≢ none
    pub uri : AtUri
    pub parsed : parse_at_uri e.workspace_id ≡ ok uri
    pub first : Key
    pub first_key : IsFirstKey env first
    pub tag : c.derive_workspace_identity_tag first uri.authority ≡ uri.rkey

  -- A key is the current one if the caller unwraps it from the members of the record.
  abbrev IsCurrent : IndexerEnvelope Keyring → Option Key → Type 0
  IsCurrent env none = Unit
  IsCurrent env (some key) = Unwraps env env.body.members key

  current_wrap-Unwraps :
      (env : IndexerEnvelope Keyring) (m : KeyringMember) (key : Key)
      → Elem m env.body.members
      → m.did ≡ did
      → current_wrap c keys env.body env.uri m ≡ good_wrap key
      → Unwraps env env.body.members key
  unfolding lineage_anchor
  current_wrap-Unwraps env m key e n h = elim (Option-cases m.wrapped_key) [
    | inl q ↦ absurd (ground (arith, q, h))
    | inr (wrap, q) ↦ record {
      member = m;
      listed = e;
      called = n;
      wrap = wrap;
      wrapped = q;
      unwrapped = ground (arith, q, h);
    }
  ]

  history_key-Unwraps :
      (env : IndexerEnvelope Keyring) (past : KeyHistoryEntry) (key : Key)
      → history_key c env.body did (lineage_anchor env.body env.uri) keys past ≡ some key
      → Unwraps env past.members key
  unfolding lineage_anchor
  history_key-Unwraps env past key h = elim (Option-cases (find_member did past.members)) [
    | inl q ↦ absurd (ground (arith, q, h))
    | inr (m, q) ↦ elim (Option-cases m.wrapped_key) [
      | inl w ↦ absurd (ground (arith, q, w, h))
      | inr (wrap, w) ↦
          let (e, n) = elem_find_member did past.members m q in
          record {
            member = m;
            listed = e;
            called = n;
            wrap = wrap;
            wrapped = w;
            unwrapped = ground (arith, q, w, h);
          }
    ]
  ]

  history_keys-Unwraps :
      (env : IndexerEnvelope Keyring) (hs : List KeyHistoryEntry) (x : HistoricalKey Key)
      → find
          (λ h. h.rotation == 0)
          (history_keys c env.body did (lineage_anchor env.body env.uri) keys hs)
        ≡ some x
      → (past : KeyHistoryEntry) × Elem past hs
        × (past.rotation ≡ 0)
        × Unwraps env past.members x.key
  history_keys-Unwraps env [] x h = cc h
  history_keys-Unwraps env (past ∷ hs) x h =
      elim (Option-cases (history_key c env.body did (lineage_anchor env.body env.uri) keys past)) [
        | inl q ↦
            let (p, m, r, u) = history_keys-Unwraps env hs x (ground (arith, q, h)) in
            (p, inr m, r, u)
        | inr (key, q) ↦ elim (Bool-cases (past.rotation == 0)) [
          | inl z ↦
              let same : key ≡ x.key = ground (arith, q, z, h) in
              (past, inl refl, ground (arith, z), rw same at (history_key-Unwraps env past key q))
          | inr z ↦
              let (p, m, r, u) = history_keys-Unwraps env hs x (ground (arith, q, z, h)) in
              (p, inr m, r, u)
        ]
      ]

  for_rotation-IsFirstKey :
      (env : IndexerEnvelope Keyring) (current : Option Key) (first : Key)
      → IsCurrent env current
      → for_rotation
          (record {
            current_rotation = env.body.rotation;
            current = current;
            historical = derive_historical_keys c env.body did env.uri keys;
          })
          0
        ≡ some first
      → IsFirstKey env first
  unfolding for_rotation derive_historical_keys
  for_rotation-IsFirstKey env current first w h = elim (Bool-cases (0 == env.body.rotation)) [
    | inl z ↦
        let q : current ≡ some first = ground (arith, z, h) in inl (ground (arith, z), rw q at w)
    | inr z ↦
        elim (Option-cases (
          find (λ h. h.rotation == 0)
            (history_keys c env.body did (lineage_anchor env.body env.uri) keys
              env.body.key_history))) [
                | inl n ↦ absurd (ground (arith, z, n, h))
                | inr (x, n) ↦
                    let (past, m, r, u) = history_keys-Unwraps env env.body.key_history x n in
                    let q : x.key ≡ first = ground (arith, z, n, h) in
                    inr (ground (arith, z), past, m, r, rw q at u)
              ]
  ]

  verified_entry-Proves :
      (env : IndexerEnvelope Keyring) (m : KeyringMember) (current : Option Key)
      (e : WorkspaceEntry)
      → Elem m env.body.members
      → m.did ≡ did
      → IsCurrent env current
      → verified_entry c env did keys m current ≡ entry e
      → Proves e env
  unfolding lineage_anchor keyring_workspace_id verify_workspace_identity
  verified_entry-Proves env m current e l n w p =
      let id = lineage_anchor env.body env.uri in
      let historical = derive_historical_keys c env.body did env.uri keys in
      let group : GroupKeys Key = record {
        current_rotation = env.body.rotation;
        current = current;
        historical = historical;
      } in
      elim (Bool-cases (verify_workspace_identity c env.body id current historical)) [
        | inr q ↦ absurd (ground (arith, rw q at p))
        | inl q ↦
            let same = rw q at p in
            let (u, first, r, f, t) = verified-Derives c env.body id current historical q in
            let same_id : e.workspace_id ≡ id = ground (arith, same) in
            record {
              identity = same_id;
              head = ground (arith, same);
              member = m;
              listed = l;
              called = n;
              chained = λ a b. ground (arith, a, b, q, Option-cases env.body.lineage);
              uri = u;
              parsed = rw same_id r;
              first = first;
              first_key = for_rotation-IsFirstKey env current first w f;
              tag = t;
            }
      ]

  wrapped_entry-Proves :
      (env : IndexerEnvelope Keyring) (m : KeyringMember) (e : WorkspaceEntry) (w : CurrentWrap Key)
      → current_wrap c keys env.body env.uri m ≡ w
      → Elem m env.body.members
      → m.did ≡ did
      → wrapped_entry c env did keys m w ≡ entry e
      → Proves e env
  wrapped_entry-Proves env m e no_wrap q l n p = verified_entry-Proves env m none e l n tt p
  wrapped_entry-Proves env m e bad_wrap q l n p = absurd (ground (arith, p))
  wrapped_entry-Proves env m e (good_wrap key) q l n p =
      verified_entry-Proves env m (some key) e l n (current_wrap-Unwraps env m key l n q) p

  pub try_build_entry-Proves :
      (env : IndexerEnvelope Keyring) (e : WorkspaceEntry)
      → try_build_entry c env did keys ≡ entry e
      → Proves e env
  unfolding try_build_entry
  try_build_entry-Proves env e h = elim (Option-cases (find_member did env.body.members)) [
    | inl q ↦ absurd (ground (arith, rw (q, try_build_entry) at h))
    | inr (m, q) ↦
        let (l, n) = elem_find_member did env.body.members m q in
        wrapped_entry-Proves env m e (current_wrap c keys env.body env.uri m) refl l n
          (rw (q, try_build_entry) at h)
  ]

module _ {Key PrivateKeys : Type 0} (c : KeyringCrypto Key PrivateKeys) where
  -- An event of the run that proves the entry.
  abbrev pub ProvedBy : Str → PrivateKeys → WorkspaceEntry → List SseEvent → Type 0
  ProvedBy did keys e events =
      (env : IndexerEnvelope Keyring) × Elem (keyring_upsert env) events × Proves c did keys e env

-- An operation that leaves an entry found it, or put it.
left_or_put :
    (op : KeeperOp WorkspaceEntry) (u : Str) (o : Option WorkspaceEntry) (e : WorkspaceEntry)
    → act (entry_effect u op) o ≡ some e
    → (o ≡ some e) ⊎ (op ≡ put e)
left_or_put (put x) u o e h = elim (Bool-cases (x.workspace_id == u)) [
  | inl q ↦ inr (ground (arith, q, h))
  | inr q ↦ inl (ground (arith, q, h))
]
left_or_put (drop v) u o e h = inl (ground (arith, h))
left_or_put (mark v r) u o e h = inl h
left_or_put (withdraw id v) u o e h = inl (ground (arith, h))
left_or_put ignore u o e h = inl h

record_put :
    (id : Str) (out : EntryOutcome) (e : WorkspaceEntry) → record_op id out ≡ put e → out ≡ entry e
record_put id (entry x) e h = ground (arith, h)
record_put id not_member e h = absurd (ground (arith, h))
record_put id (unreadable_wrap u) e h = absurd (ground (arith, h))
record_put id identity_mismatch e h = absurd (ground (arith, h))

delete_put : (o : KeyringDeleteOutcome) (id : Str) (e : WorkspaceEntry) → delete_op o id ≡ put e → ⊥
delete_put torn_down id e h = ground (arith, h)
delete_put rolled_back id e h = ground (arith, h)
delete_put unchanged id e h = ground (arith, h)

signal_put :
    (b : Bool) (uri : Option Str) (r : UnreadableReason) (e : WorkspaceEntry)
    → signal_op b uri r ≡ put e
    → ⊥
signal_put false uri r e h = ground (arith, h)
signal_put true none r e h = ground (arith, h)
signal_put true (some u) r e h = ground (arith, h)

module _ {Key PrivateKeys : Type 0} (c : KeyringCrypto Key PrivateKeys) (did : Str)
    (keys : PrivateKeys) where
  put_by :
      (event : SseEvent) (e : WorkspaceEntry)
      → workspace_op c did (some keys) event ≡ put e
      → (env : IndexerEnvelope Keyring) × (keyring_upsert env ≡ event) × Proves c did keys e env
  unfolding workspace_op
  put_by (keyring_upsert env) e h = (
    env,
    refl,
    try_build_entry-Proves c did keys env e
        (record_put (keyring_workspace_id env) (try_build_entry c env did keys) e h),
  )
  put_by (keyring_delete p) e h = absurd (delete_put p.outcome (deleted_workspace_id p) e h)
  put_by (corrupt_record r) e h = absurd (signal_put (is_keyring_scope r.scope) r.uri r.reason e h)
  put_by (SseEvent.directory_upsert x) e h = absurd (ground (arith, h))
  put_by (SseEvent.directory_delete x) e h = absurd (ground (arith, h))
  put_by (SseEvent.document_upsert x) e h = absurd (ground (arith, h))
  put_by (SseEvent.document_delete x) e h = absurd (ground (arith, h))
  put_by (SseEvent.grant_upsert x) e h = absurd (ground (arith, h))
  put_by (SseEvent.grant_delete x) e h = absurd (ground (arith, h))
  put_by (SseEvent.chain_forked x) e h = absurd (ground (arith, h))
  put_by SseEvent.reconnect e h = absurd (ground (arith, h))

  acts-ProvedBy :
      (events : List SseEvent) (u : Str) (o : Option WorkspaceEntry) (e : WorkspaceEntry)
      → acts (entry_effect u) (map (workspace_op c did (some keys)) events) o ≡ some e
      → (o ≡ some e) ⊎ ProvedBy c did keys e events
  acts-ProvedBy [] u o e h = inl h
  acts-ProvedBy (event ∷ events) u o e h =
      elim (acts-ProvedBy events u (act (entry_effect u (workspace_op c did (some keys) event)) o) e
        h) [
          | inr (env, m, p) ↦ inr (env, inr m, p)
          | inl q ↦ elim (left_or_put (workspace_op c did (some keys) event) u o e q) [
            | inl r ↦ inl r
            | inr r ↦ let (env, m, p) = put_by event e r in inr (env, inl m, p)
          ]
        ]

  module _ {Callback : Type 0} (gate : BootstrapGate SseEvent)
      (k : Keeper WorkspaceEntry Callback) where
    -- After any events during a bootstrap, an entry of the list of workspaces is one of the state
    -- that the bootstrap installed or was built from a keyring event among them that names the
    -- caller, whose workspace identity is a URI with the tag of the first group key, unwrapped by
    -- the caller, as its record key.
    pub entries-ProvedBy :
        (events : List SseEvent) (fetched : Option (List WorkspaceEntry × List UnreadableRef))
        (u : Str) (e : WorkspaceEntry)
        → get (bootstrapped_workspaces c did (some keys) gate k events fetched).entries u ≡ some e
        → (get (installed k fetched).0.entries u ≡ some e) ⊎ ProvedBy c did keys e events
    entries-ProvedBy events fetched u e h =
        acts-ProvedBy events u (get (installed k fetched).0.entries u) e
          (sym (workspaces-reached c did (some keys) gate k events fetched u) ∙ h)
