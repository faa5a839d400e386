-- ===== src/Keepers.antt =====
-- The list keepers of crates/opake-core, indexer/inbox_keeper/mod.rs and
-- indexer/workspace_keeper/mod.rs. The two are one state machine over their entries, given here once;
-- `Listing` is where they differ, and Inbox and Workspaces give the rest. A callback is a value that a
-- firing names, with the snapshot it is fired with; firings are in the order of the watchers' map.
pub mod Lookups
pub mod Snapshots
pub mod Runs
pub mod Firing
pub mod Gate
pub mod Signals
pub mod Inbox
pub mod Workspaces
pub mod Keyrings
pub mod Verified
pub mod Shown
pub mod Forks
mod Examples
use opake.Base.{
  ◌≡◌, ◌↔◌, arith, ℕ, suc, Bool, true, false, ◌&&◌, ◌||◌, not, Option, none, some, List, [], ◌∷◌,
  ◌++◌, Str, Eq, ◌==◌, str_eq, nat_eq, option_eq, any, is_some, map, Map, get, contains_key, insert,
  insert_all, remove, values, if◌then◌else◌,
}
use opake.Base.Order.{sort_by}
use opake.Records.{UnreadableReason, corrupt, needs_newer_client, UnreadableRef}

abbrev pub same_reason : UnreadableReason → UnreadableReason → Bool
same_reason corrupt corrupt = true
same_reason needs_newer_client needs_newer_client = true
same_reason _ _ = false

pub same_reason_iff : (a b : UnreadableReason) → (same_reason a b ≡ true) ↔ (a ≡ b)
same_reason_iff a b = ground arith

instance abbrev pub reason_eq : Eq UnreadableReason
reason_eq = record { equal = same_reason; equal_iff = same_reason_iff }

-- The key of an entry, the URIs under which a signal of it may stand, and its `PartialEq`.
pub record Listing (Entry : Type 0) : Type 0 where
  pub key : Entry → Str
  pub signal_keys : Entry → List Str
  pub same : Eq Entry

-- `UnreadableGrant`, `UnreadableWorkspace`.
pub record Signal : Type 0 where
  pub uri : Str
  pub reason : UnreadableReason

pub record Snapshot (Entry : Type 0) : Type 0 where
  pub entries : List Entry
  pub unreadable : List Signal
  pub loaded : Bool

pub record Keeper (Entry Callback : Type 0) : Type 0 where
  pub entries : Map Str Entry
  pub unreadable : Map Str UnreadableReason
  pub watchers : Map ℕ Callback
  pub next_watcher_id : ℕ
  pub loaded : Bool

-- A keeper, and the callbacks that were fired.
abbrev pub Fired : Type 0 → Type 0 → Type 0
Fired Entry Callback = Keeper Entry Callback × List (Callback × Snapshot Entry)

module _ {Entry Callback : Type 0} where
  abbrev pub new_keeper : Keeper Entry Callback
  new_keeper = record {
    entries = [];
    unreadable = [];
    watchers = [];
    next_watcher_id = 0;
    loaded = false;
  }

abbrev pub signal_of : Str × UnreadableReason → Signal
signal_of (uri, reason) = record { uri = uri; reason = reason }

-- `filter_map` over the references that carry a URI.
abbrev pub signals_from : List UnreadableRef → List (Str × UnreadableReason)
signals_from [] = []
signals_from (r ∷ rs) = elim r.uri [
  | none ↦ signals_from rs
  | some uri ↦ (uri, r.reason) ∷ signals_from rs
]

-- The signals with the keys removed, and whether there was one.
unfoldable pub clear : List Str → Map Str UnreadableReason → Map Str UnreadableReason × Bool
clear [] m = (m, false)
clear (u ∷ us) m = let (m', cleared) = clear us (remove m u) in (m', contains_key m u || cleared)

-- The tracked entry deep-equals the new one.
abbrev pub is_same : {Entry : Type 0} ⦃l : Listing Entry⦄ → Entry → Option Entry → Bool
is_same ⦃l⦄ e none = false
is_same ⦃l⦄ e (some old) = l.same.equal old e

module _ {Entry Callback : Type 0} ⦃l : Listing Entry⦄ where
  -- Entries and signals sorted by URI.
  unfoldable pub snapshot : Keeper Entry Callback → Snapshot Entry
  snapshot k = record {
    entries = sort_by l.key (values k.entries);
    unreadable = sort_by (λ (s : Signal). s.uri) (map signal_of k.unreadable);
    loaded = k.loaded;
  }

  unfoldable pub notify : Keeper Entry Callback → List (Callback × Snapshot Entry)
  notify k = map (λ (w : ℕ × Callback). (w.1, snapshot k)) k.watchers

  abbrev notified : Keeper Entry Callback → Fired Entry Callback
  notified k = (k, notify k)

  unfoldable pub bootstrap_with_signals :
      Keeper Entry Callback → List Entry → List UnreadableRef → Fired Entry Callback
  bootstrap_with_signals k entries unreadable = notified (record k {
    entries = insert_all [] (map (λ e. (l.key e, e)) entries);
    unreadable = insert_all [] (signals_from unreadable);
    loaded = true;
  })

  unfoldable pub bootstrap : Keeper Entry Callback → List Entry → Fired Entry Callback
  bootstrap k entries = bootstrap_with_signals k entries []

  unfoldable pub signal_unreadable :
      Keeper Entry Callback → Str → UnreadableReason → Fired Entry Callback
  signal_unreadable k uri reason =
      if get k.unreadable uri == some reason
      then (k, [])
      else notified (record k { unreadable = insert k.unreadable uri reason })

  unfoldable pub upsert : Keeper Entry Callback → Entry → Fired Entry Callback
  upsert k e =
      let (unreadable, cleared) = clear (l.signal_keys e) k.unreadable in
      if is_same e (get k.entries (l.key e)) && not cleared
      then (record k { unreadable = unreadable }, [])
      else notified (record k { unreadable = unreadable; entries = insert k.entries (l.key e) e })

  unfoldable pub delete : Keeper Entry Callback → Str → Fired Entry Callback
  delete k uri =
      if contains_key k.entries uri
      then notified (record k { entries = remove k.entries uri })
      else (k, [])

  -- The handle is the identifier; the callback is fired once at once.
  unfoldable pub install_watcher : Keeper Entry Callback → Callback → ℕ × Fired Entry Callback
  install_watcher k callback = (
    k.next_watcher_id,
    (
      record k {
        watchers = insert k.watchers k.next_watcher_id callback;
        next_watcher_id = suc k.next_watcher_id;
      },
      (callback, snapshot k) ∷ [],
    ),
  )

module _ {Entry Callback : Type 0} where
  unfoldable pub unwatch : Keeper Entry Callback → ℕ → Keeper Entry Callback
  unwatch k handle = record k { watchers = remove k.watchers handle }

  -- The identifiers go on.
  unfoldable pub uninstall_all : Keeper Entry Callback → Keeper Entry Callback
  uninstall_all k = record k { entries = []; unreadable = []; watchers = []; loaded = false }
