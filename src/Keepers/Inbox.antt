-- ===== src/Keepers/Inbox.antt =====
-- crates/opake-core, indexer/inbox_keeper/mod.rs: the inbox as a list keeper, and crates/opake-wasm,
-- sse_wasm.rs: the grant events that reach it.
use opake.Base.{
  Option-cases, inl, inr, is_some, ◌≡◌, ◌↔◌, refl, Bool, true, false, ◌&&◌, not, Option, none, some,
  List, [], ◌∷◌, ◌++◌, Str, codes, ◌==◌, str_eq, str_beq_iff, nat_eq, map, get, arith,
  if◌then◌else◌,
}
use opake.Atproto.{strip_prefix, split_once}
use opake.Records.{UnreadableReason, UnreadableRef}
use opake.Events.{
  IndexerEnvelope, Grant, SseEvent, CorruptScope, grant_scope, grant_upsert, grant_delete,
  corrupt_record,
}
use opake.Keepers.{Listing, Keeper, Fired, upsert, delete}
use opake.Keepers.Runs.{KeeperOp, put, drop, ignore, apply, acts, entry_effect, signal_effect}
use opake.Keepers.Signals.{signal_in_scope, signal_op, signal_law, signal_quiet}
use opake.Keepers.Gate.{
  BootstrapGate, capture_if_active, synced, Handler, unless_captured, if_current, installed,
  bootstrap_during, consume, converged,
}

pub record InboxEntry : Type 0 where
  pub uri : Str
  pub author_did : Str
  pub document_uri : Str
  pub created_at : Str

unfoldable pub same_inbox_entry : InboxEntry → InboxEntry → Bool
same_inbox_entry a b =
    a.uri == b.uri
    && (a.author_did == b.author_did
        && (a.document_uri == b.document_uri && a.created_at == b.created_at))

pub same_inbox_entry_iff : (a b : InboxEntry) → (same_inbox_entry a b ≡ true) ↔ (a ≡ b)
unfolding same_inbox_entry
same_inbox_entry_iff a b = ground (
  arith,
  str_beq_iff a.uri b.uri,
  str_beq_iff a.author_did b.author_did,
  str_beq_iff a.document_uri b.document_uri,
  str_beq_iff a.created_at b.created_at,
)

instance abbrev pub inbox_listing : Listing InboxEntry
inbox_listing = record {
  key = λ e. e.uri;
  signal_keys = λ e. e.uri ∷ [];
  same = record { equal = same_inbox_entry; equal_iff = same_inbox_entry_iff };
}

-- `split('/').next()` is the part before the first slash, or the whole.
abbrev first_segment : Str → Str
first_segment rest = elim (split_once b'/' rest) [ none ↦ rest | some (head, tail) ↦ head ]

-- `none` for a grant to someone else. The author is the authority of the URI.
unfoldable pub try_build_entry_from_envelope : IndexerEnvelope Grant → Str → Option InboxEntry
try_build_entry_from_envelope env recipient_did =
    if not (env.body.recipient == recipient_did)
    then none
    else some (record {
      uri = env.uri;
      author_did = elim (strip_prefix (codes "at://") env.uri) [
        | none ↦ []
        | some rest ↦ first_segment rest
      ];
      document_uri = env.body.document;
      created_at = env.body.created_at;
    })

abbrev is_grant_scope : CorruptScope → Bool
is_grant_scope grant_scope = true
is_grant_scope _ = false

module _ {Callback : Type 0} (my_did : Str) (current : Bool) where
  abbrev upsert_built : Option InboxEntry → Keeper InboxEntry Callback → Fired InboxEntry Callback
  upsert_built none k = (k, [])
  upsert_built (some e) k = if_current current (λ (k : Keeper InboxEntry Callback). upsert k e) k

  -- The handler of one event; a corrupt record needs a URI and the scope of grants.
  unfoldable pub apply_grant_to_inbox_keeper : Handler SseEvent InboxEntry Callback
  apply_grant_to_inbox_keeper gate k (grant_upsert env) =
      unless_captured gate k (grant_upsert env)
        (upsert_built (try_build_entry_from_envelope env my_did))
  apply_grant_to_inbox_keeper gate k (grant_delete uri) =
      unless_captured gate k (grant_delete uri)
        (if_current current (λ (k : Keeper InboxEntry Callback). delete k uri))
  apply_grant_to_inbox_keeper gate k (corrupt_record c) =
      signal_in_scope current gate k (corrupt_record c) (is_grant_scope c.scope) c.uri c.reason
  apply_grant_to_inbox_keeper gate k other = synced gate (k, [])

-- What an event asks of the inbox.
abbrev built : Option InboxEntry → KeeperOp InboxEntry
built none = ignore
built (some e) = put e

unfoldable pub inbox_op : Str → SseEvent → KeeperOp InboxEntry
inbox_op my_did (grant_upsert env) = built (try_build_entry_from_envelope env my_did)
inbox_op my_did (grant_delete uri) = drop uri
inbox_op my_did (corrupt_record c) = signal_op (is_grant_scope c.scope) c.uri c.reason
inbox_op my_did other = ignore

abbrev concerns_inbox : SseEvent → Bool
concerns_inbox (grant_upsert env) = true
concerns_inbox (grant_delete uri) = true
concerns_inbox (corrupt_record c) = is_grant_scope c.scope && is_some c.uri
concerns_inbox other = false

module _ {Callback : Type 0} (my_did : Str) where
  upsert_law :
      (g : BootstrapGate SseEvent) (k : Keeper InboxEntry Callback) (env : IndexerEnvelope Grant)
      → apply_grant_to_inbox_keeper my_did true g k (grant_upsert env)
        ≡ consume concerns_inbox (inbox_op my_did) g k (grant_upsert env)
  unfolding apply_grant_to_inbox_keeper inbox_op capture_if_active apply
  upsert_law g k env = elim (Option-cases (try_build_entry_from_envelope env my_did)) [
    | inl q ↦ rw q refl
    | inr (e, q) ↦ rw q refl
  ]

  law :
      (g : BootstrapGate SseEvent) (k : Keeper InboxEntry Callback) (e : SseEvent)
      → apply_grant_to_inbox_keeper my_did true g k e
        ≡ consume concerns_inbox (inbox_op my_did) g k e
  unfolding apply_grant_to_inbox_keeper inbox_op capture_if_active apply
  law g k (grant_upsert env) = upsert_law g k env
  law g k (grant_delete uri) = refl
  law g k (corrupt_record c) =
      signal_law g k (corrupt_record c) (is_grant_scope c.scope) c.uri c.reason
  law g k (SseEvent.directory_upsert x) = refl
  law g k (SseEvent.directory_delete x) = refl
  law g k (SseEvent.document_upsert x) = refl
  law g k (SseEvent.document_delete x) = refl
  law g k (SseEvent.keyring_upsert x) = refl
  law g k (SseEvent.keyring_delete x) = refl
  law g k (SseEvent.chain_forked x) = refl
  law g k SseEvent.reconnect = refl

quiet : (my_did : Str) (e : SseEvent) → concerns_inbox e ≡ false → inbox_op my_did e ≡ ignore
unfolding inbox_op
quiet my_did (grant_upsert env) h = cc h
quiet my_did (grant_delete uri) h = cc h
quiet my_did (corrupt_record c) h = signal_quiet (is_grant_scope c.scope) c.uri c.reason h
quiet my_did (SseEvent.directory_upsert x) h = refl
quiet my_did (SseEvent.directory_delete x) h = refl
quiet my_did (SseEvent.document_upsert x) h = refl
quiet my_did (SseEvent.document_delete x) h = refl
quiet my_did (SseEvent.keyring_upsert x) h = refl
quiet my_did (SseEvent.keyring_delete x) h = refl
quiet my_did (SseEvent.chain_forked x) h = refl
quiet my_did SseEvent.reconnect h = refl

module _ {Callback : Type 0} (my_did : Str) (gate : BootstrapGate SseEvent)
    (k : Keeper InboxEntry Callback) (seen later : List SseEvent)
    (fetched : Option (List InboxEntry × List UnreadableRef)) where
  -- The inbox after the bootstrap, with all the events arriving during the fetch.
  abbrev pub bootstrapped_inbox : Keeper InboxEntry Callback
  bootstrapped_inbox =
      (bootstrap_during (apply_grant_to_inbox_keeper my_did true) gate k (seen ++ later)
        fetched).keeper

  -- If the state that a bootstrap installs shows, at a key, a base state changed by some of the
  -- events that arrive during the fetch, then the inbox afterwards shows there the base state
  -- changed by all of them, entry and unreadable signal alike; a failed fetch installs the state
  -- that was there.
  pub bootstrap_converges :
      (entries : Str → Option InboxEntry) (unreadable : Str → Option UnreadableReason) (u : Str)
      → get (installed k fetched).0.entries u
        ≡ acts (entry_effect u) (map (inbox_op my_did) seen) (entries u)
      → get (installed k fetched).0.unreadable u
        ≡ acts (signal_effect u) (map (inbox_op my_did) seen) (unreadable u)
      → (get bootstrapped_inbox.entries u
          ≡ acts (entry_effect u) (map (inbox_op my_did) (seen ++ later)) (entries u))
        × (get bootstrapped_inbox.unreadable u
            ≡ acts (signal_effect u) (map (inbox_op my_did) (seen ++ later)) (unreadable u))
  bootstrap_converges entries unreadable u =
      converged concerns_inbox (inbox_op my_did) (apply_grant_to_inbox_keeper my_did true)
        (law my_did) (quiet my_did) gate k seen later fetched entries unreadable u
