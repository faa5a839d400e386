-- ===== src/Keepers/Gate.antt =====
-- crates/opake-wasm, bootstrap_gate.rs, and the bootstraps of sse_wasm.rs: events that arrive while a
-- snapshot is fetched are buffered, and replayed on top of it. `consume` is what an event loop with
-- a gate does in the terms of the keepers' operations.
use opake.Base.{
  ◌≡◌, refl, ap, ◌∙◌, Bool, true, false, Option, none, some, List, [], ◌∷◌, ◌++◌, Str, map, get,
  nat_eq, str_eq, Bool-cases, inl, inr, keep, if◌then◌else◌,
}
use mathlib.Core.List.{append_assoc, append-nil, map-append}
use opake.Records.{UnreadableReason, UnreadableRef}
use opake.Keepers.{Listing, Keeper, Fired, Snapshot, bootstrap_with_signals}
use opake.Keepers.Runs.{
  KeeperOp, ignore, apply, run, run_refines, Effect, stays, act, acts, acts_twice, acts-append,
  entry_effect, signal_effect,
}

pub record BootstrapGate (Event : Type 0) : Type 0 where
  pub active : Bool
  pub buffered : List Event

module _ {Event : Type 0} where
  abbrev pub new_gate : BootstrapGate Event
  new_gate = record { active = false; buffered = [] }

  unfoldable pub begin : BootstrapGate Event → BootstrapGate Event
  begin g = record { active = true; buffered = [] }

  -- Whether the event was captured, so that it must not be applied.
  unfoldable pub capture_if_active : BootstrapGate Event → Event → BootstrapGate Event × Bool
  capture_if_active g event =
      if g.active then (record g { buffered = g.buffered ++ (event ∷ []) }, true) else (g, false)

  unfoldable pub finish : BootstrapGate Event → BootstrapGate Event × List Event
  finish g = (record { active = false; buffered = [] }, g.buffered)

module _ {Entry Callback : Type 0} ⦃l : Listing Entry⦄ where
  abbrev pub installed :
      Keeper Entry Callback → Option (List Entry × List UnreadableRef) → Fired Entry Callback
  installed keeper none = (keeper, [])
  installed keeper (some (entries, unreadable)) = bootstrap_with_signals keeper entries unreadable

-- A gate, a keeper, and the firings.
pub record Synced (Event Entry Callback : Type 0) : Type 0 where
  pub gate : BootstrapGate Event
  pub keeper : Keeper Entry Callback
  pub fired : List (Callback × Snapshot Entry)

abbrev pub Handler : Type 0 → Type 0 → Type 0 → Type 0
Handler Event Entry Callback =
    BootstrapGate Event → Keeper Entry Callback → Event → Synced Event Entry Callback

-- A handler of an earlier generation of the consumer applies nothing.
abbrev pub if_current :
    {Entry Callback : Type 0}
    → Bool
    → (Keeper Entry Callback → Fired Entry Callback)
    → Keeper Entry Callback
    → Fired Entry Callback
if_current current handle keeper = if current then handle keeper else (keeper, [])

module _ {Event Entry Callback : Type 0} where
  abbrev pub synced : BootstrapGate Event → Fired Entry Callback → Synced Event Entry Callback
  synced g (k, fired) = record { gate = g; keeper = k; fired = fired }

  -- A captured event ends the handler.
  abbrev pub unless_captured :
      BootstrapGate Event
      → Keeper Entry Callback
      → Event
      → (Keeper Entry Callback → Fired Entry Callback)
      → Synced Event Entry Callback
  unless_captured gate keeper event handle =
      let (gate', captured) = capture_if_active gate event in
      synced gate' (if captured then (keeper, []) else handle keeper)

  unfoldable pub receive :
      Handler Event Entry Callback
      → BootstrapGate Event
      → Keeper Entry Callback
      → List Event
      → Synced Event Entry Callback
  receive f gate keeper [] = synced gate (keeper, [])
  receive f gate keeper (event ∷ events) =
      let s = f gate keeper event in
      let t = receive f s.gate s.keeper events in record t { fired = s.fired ++ t.fired }

  module _ ⦃l : Listing Entry⦄ where
    -- The snapshot is installed if the fetch succeeded, and the buffer is replayed either way.
    unfoldable pub complete :
        Handler Event Entry Callback
        → BootstrapGate Event
        → Keeper Entry Callback
        → Option (List Entry × List UnreadableRef)
        → Synced Event Entry Callback
    complete f gate keeper fetched =
        let (keeper', fired) = installed keeper fetched in
        let (gate', buffered) = finish gate in
        let t = receive f gate' keeper' buffered in record t { fired = fired ++ t.fired }

    -- The gate is opened, events arrive, and the fetch returns.
    unfoldable pub bootstrap_during :
        Handler Event Entry Callback
        → BootstrapGate Event
        → Keeper Entry Callback
        → List Event
        → Option (List Entry × List UnreadableRef)
        → Synced Event Entry Callback
    bootstrap_during f gate keeper events fetched =
        let s = receive f (begin gate) keeper events in
        let t = complete f s.gate s.keeper fetched in record t { fired = s.fired ++ t.fired }

module _ {Event : Type 0} where
  abbrev open_with : List Event → BootstrapGate Event
  open_with buffered = record { active = true; buffered = buffered }

  abbrev closed : BootstrapGate Event
  closed = record { active = false; buffered = [] }

-- Events that are replayed onto a state that reflects the first of them.
replay_twice :
    {E A V : Type 0} (g : E → A) (f : A → Effect V) (seen later : List E) (o p : Option V)
    → p ≡ acts f (map g seen) o
    → acts f (map g (seen ++ later)) p ≡ acts f (map g (seen ++ later)) o
replay_twice g f seen later o p h =
    rw
      (
        map-append g seen later,
        acts-append f (map g seen) (map g later) p,
        acts-append f (map g seen) (map g later) o,
        h,
        acts_twice f (map g seen) o,
      )
      refl

module _ {Event Entry : Type 0} (concerns : Event → Bool) (op_of : Event → KeeperOp Entry) where
  -- The events that are not buffered have no effect.
  acts-keep :
      {V : Type 0} (f : KeeperOp Entry → Effect V) (events : List Event) (o : Option V)
      → ((e : Event) → concerns e ≡ false → f (op_of e) ≡ stays)
      → acts f (map op_of (keep concerns events)) o ≡ acts f (map op_of events) o
  acts-keep f [] o h = refl
  acts-keep f (e ∷ es) o h = elim (Bool-cases (concerns e)) [
    | inl p ↦ rw p (acts-keep f es (act (f (op_of e)) o) h)
    | inr p ↦
        let step : acts f (map op_of (keep concerns es)) o
            ≡ acts f (map op_of es) (act (f (op_of e)) o) =
          rw (h e p) (acts-keep f es o h) in
        rw p step
  ]

-- What is replayed of what arrived.
module _ {Event Entry Callback : Type 0} ⦃l : Listing Entry⦄ (concerns : Event → Bool)
    (op_of : Event → KeeperOp Entry) where
  abbrev pub consume : Handler Event Entry Callback
  consume gate keeper event =
      if concerns event
      then unless_captured gate keeper event (λ k. apply k (op_of event))
      else synced gate (keeper, [])

  captured_all :
      (b events : List Event) (k : Keeper Entry Callback)
      → receive consume (open_with b) k events
        ≡ synced (open_with (b ++ keep concerns events)) (k, [])
  unfolding receive capture_if_active
  captured_all b [] k = rw (append-nil b) refl
  captured_all b (e ∷ es) k = elim (Bool-cases (concerns e)) [
    | inl p ↦
        rw (p, captured_all (b ++ (e ∷ [])) es k, append_assoc b (e ∷ []) (keep concerns es)) refl
    | inr p ↦ rw (p, captured_all b es k) refl
  ]

  replayed_all :
      (events : List Event) (k : Keeper Entry Callback)
      → receive consume closed k (keep concerns events)
        ≡ synced closed (run k (map op_of (keep concerns events)))
  unfolding receive capture_if_active run
  replayed_all [] k = refl
  replayed_all (e ∷ es) k = elim (Bool-cases (concerns e)) [
    | inl p ↦
        let step : receive consume closed k (e ∷ keep concerns es)
            ≡ synced closed (run k (op_of e ∷ map op_of (keep concerns es))) =
          rw (p, replayed_all es (apply k (op_of e)).0) refl in
        rw p step
    | inr p ↦ rw p (replayed_all es k)
  ]

  bootstrapped :
      (gate : BootstrapGate Event) (k : Keeper Entry Callback) (events : List Event)
      (fetched : Option (List Entry × List UnreadableRef))
      → (bootstrap_during consume gate k events fetched).keeper
        ≡ (run (installed k fetched).0 (map op_of (keep concerns events))).0
  unfolding bootstrap_during begin complete finish
  bootstrapped gate k events fetched =
      rw (captured_all [] events k, replayed_all events (installed k fetched).0) refl

  module _ (f : Handler Event Entry Callback)
      (law : (g : BootstrapGate Event) (k : Keeper Entry Callback) (e : Event)
        → f g k e ≡ consume g k e)
      (quiet : (e : Event) → concerns e ≡ false → op_of e ≡ ignore) where
    receive-consume :
        (g : BootstrapGate Event) (k : Keeper Entry Callback) (events : List Event)
        → receive f g k events ≡ receive consume g k events
    unfolding receive
    receive-consume g k [] = refl
    receive-consume g k (e ∷ es) =
        rw (law g k e, receive-consume (consume g k e).gate (consume g k e).keeper es) refl

    bootstrapped_by :
        (gate : BootstrapGate Event) (k : Keeper Entry Callback) (events : List Event)
        (fetched : Option (List Entry × List UnreadableRef))
        → bootstrap_during f gate k events fetched ≡ bootstrap_during consume gate k events fetched
    unfolding bootstrap_during complete
    bootstrapped_by gate k events fetched =
        let s = receive consume (begin gate) k events in
        rw
          (
            receive-consume (begin gate) k events,
            receive-consume (finish s.gate).0 (installed s.keeper fetched).0 (finish s.gate).1,
          )
          refl

    pub reached :
        (gate : BootstrapGate Event) (k : Keeper Entry Callback) (events : List Event)
        (fetched : Option (List Entry × List UnreadableRef)) (u : Str)
        → (get (bootstrap_during f gate k events fetched).keeper.entries u
            ≡ acts (entry_effect u) (map op_of events) (get (installed k fetched).0.entries u))
          × (get (bootstrap_during f gate k events fetched).keeper.unreadable u
              ≡ acts
                  (signal_effect u)
                  (map op_of events)
                  (get (installed k fetched).0.unreadable u))
    reached gate k events fetched u =
        let still = λ (e : Event) (h : concerns e ≡ false). ap (entry_effect u) (quiet e h) in
        let silent = λ (e : Event) (h : concerns e ≡ false). ap (signal_effect u) (quiet e h) in
        let after = (installed k fetched).0 in
        let (p, q) = run_refines after (map op_of (keep concerns events)) u in
        rw (bootstrapped_by gate k events fetched, bootstrapped gate k events fetched)
          (
            p ∙ acts-keep concerns op_of (entry_effect u) events (get after.entries u) still,
            q ∙ acts-keep concerns op_of (signal_effect u) events (get after.unreadable u) silent,
          )

    -- A snapshot that reflects some of the events, all of which are replayed.
    pub converged :
        (gate : BootstrapGate Event) (k : Keeper Entry Callback) (seen later : List Event)
        (fetched : Option (List Entry × List UnreadableRef)) (entries : Str → Option Entry)
        (unreadable : Str → Option UnreadableReason) (u : Str)
        → get (installed k fetched).0.entries u ≡ acts (entry_effect u) (map op_of seen) (entries u)
        → get (installed k fetched).0.unreadable u
          ≡ acts (signal_effect u) (map op_of seen) (unreadable u)
        → (get (bootstrap_during f gate k (seen ++ later) fetched).keeper.entries u
            ≡ acts (entry_effect u) (map op_of (seen ++ later)) (entries u))
          × (get (bootstrap_during f gate k (seen ++ later) fetched).keeper.unreadable u
              ≡ acts (signal_effect u) (map op_of (seen ++ later)) (unreadable u))
    converged gate k seen later fetched entries unreadable u he hs =
        let (p, q) = reached gate k (seen ++ later) fetched u in
        (
          p
              ∙ replay_twice op_of (entry_effect u) seen later (entries u)
                  (get (installed k fetched).0.entries u) he,
          q
              ∙ replay_twice op_of (signal_effect u) seen later (unreadable u)
                  (get (installed k fetched).0.unreadable u) hs,
        )
