-- ===== src/Keepers/Signals.antt =====
-- crates/opake-wasm, sse_wasm.rs: the corrupt records that the handlers of events signal.
use opake.Base.{
  ◌≡◌, refl, Bool, true, false, ◌&&◌, Option, none, some, [], Str, is_some, if◌then◌else◌,
}
use opake.Records.{UnreadableReason}
use opake.Events.{SseEvent}
use opake.Keepers.{Listing, Keeper, signal_unreadable}
use opake.Keepers.Runs.{KeeperOp, mark, ignore, apply}
use opake.Keepers.Gate.{BootstrapGate, Synced, synced, unless_captured, if_current}

-- A corrupt record is signalled in the keeper's scope, if it has a URI.
module _ {Entry Callback : Type 0} ⦃l : Listing Entry⦄ (current : Bool) where
  abbrev pub signal_in_scope :
      BootstrapGate SseEvent
      → Keeper Entry Callback
      → SseEvent
      → Bool
      → Option Str
      → UnreadableReason
      → Synced SseEvent Entry Callback
  signal_in_scope gate k event false uri reason = synced gate (k, [])
  signal_in_scope gate k event true none reason = synced gate (k, [])
  signal_in_scope gate k event true (some uri) reason =
      unless_captured gate k event
        (if_current current (λ (k : Keeper Entry Callback). signal_unreadable k uri reason))

abbrev pub signal_op : {Entry : Type 0} → Bool → Option Str → UnreadableReason → KeeperOp Entry
signal_op false uri reason = ignore
signal_op true none reason = ignore
signal_op true (some uri) reason = mark uri reason

pub signal_law :
    {Entry Callback : Type 0} ⦃l : Listing Entry⦄ (g : BootstrapGate SseEvent)
    (k : Keeper Entry Callback) (e : SseEvent) (b : Bool) (uri : Option Str) (r : UnreadableReason)
    → signal_in_scope true g k e b uri r ≡ (
        if b && is_some uri
        then unless_captured g k e (λ k. apply k (signal_op b uri r))
        else synced g (k, []))
unfolding apply
signal_law g k e false uri r = refl
signal_law g k e true none r = refl
signal_law g k e true (some u) r = refl

pub signal_quiet :
    {Entry : Type 0} (b : Bool) (uri : Option Str) (r : UnreadableReason)
    → (b && is_some uri) ≡ false
    → signal_op {Entry = Entry} b uri r ≡ ignore
signal_quiet false uri r h = refl
signal_quiet true none r h = refl
signal_quiet true (some u) r h = cc h
