-- ===== src/Sse/Consumer/Rounds.antt =====
-- The rounds of `next_event` of indexer/sse/consumer.rs: how long it goes on, and what it returns after
-- a lost connection.
use opake.Base.{
  ◌≡◌, ◌⊎◌, refl, ap, sym, subst, ℕ, zero, suc, ◌+◌, ◌≤◌, true, false, none, some, List, [], Str,
  is_some, arith, Bool-cases, inl, inr, if◌then◌else◌,
}
use opake.Error.{Result, ok, err}
use opake.Events.{SseEvent, reconnect}
use opake.Sse.Consumer.{
  SseConsumer, World, reset, Round, returned, again, pull, opened, with_token, sleep_with_backoff,
  round, Polled, slept, next_event,
}

-- From round m on, tokens are given, connects succeed and connections deliver.
pub record Recovers (world : World) (m : ℕ) : Type 0 where
  pub tokens : (j : ℕ) → m ≤ j → (t : Str) × (world.fetch_token j ≡ ok t)
  pub connects : (j : ℕ) (t : Str) → m ≤ j → world.connect j t ≡ ok tt
  pub events : (j : ℕ) → m ≤ j → (e : SseEvent) × (world.next_event j ≡ ok (some e))

module _ (world : World) where
  is_some-slept :
      (ds : List ℕ) (p : Polled world) → is_some p ≡ true → is_some (slept world ds p) ≡ true
  is_some-slept ds none h = h
  is_some-slept ds (some (e, (s, (n, more)))) h = refl

  -- A round that returns, or leads to one that does.
  by_round :
      (fuel n : ℕ) (s : SseConsumer)
      → ((s' : SseConsumer) → is_some (next_event world fuel (suc n) s') ≡ true)
      → is_some (next_event world (suc fuel) n s) ≡ true
  unfolding next_event
  by_round fuel n s h = on (round world n s)
    where
      on :
          (r : Round)
          → is_some (elim r as (λ x. Polled world) [
            | returned event s' ↦ some (event, (s', (suc n, [])))
            | again ds s' ↦ slept world ds (next_event world fuel (suc n) s')
          ])
            ≡ true
      on (returned e s') = refl
      on (again ds s') = is_some-slept ds (next_event world fuel (suc n) s') (h s')

  -- A consumer with a connection that delivers returns in its next round.
  live_round :
      (n : ℕ) (s : SseConsumer) (e : SseEvent)
      → world.next_event n ≡ ok (some e)
      → s.connected ≡ true
      → (x : SseEvent) × (s' : SseConsumer) × (round world n s ≡ returned x s')
  unfolding round pull
  live_round n s e h c = elim (Bool-cases s.pending_reconnect_event) [
    | inl p ↦ (reconnect, record s { pending_reconnect_event = false }, ground (arith, p))
    | inr p ↦
        (e, record s { was_connected = true; backoff = reset s.backoff }, ground (arith, p, c, h))
  ]

  returns_now :
      (fuel n : ℕ) (s s' : SseConsumer) (x : SseEvent)
      → round world n s ≡ returned x s'
      → next_event world (suc fuel) n s ≡ some (x, (s', (suc n, [])))
  unfolding next_event
  returns_now fuel n s s' x h = rw (h, next_event) refl

  -- A consumer without one connects, or owes an event and returns it.
  connecting :
      (n : ℕ) (s : SseConsumer) (t : Str)
      → world.fetch_token n ≡ ok t
      → world.connect n t ≡ ok tt
      → s.connected ≡ false
      → s.pending_reconnect_event ≡ false
      → (s' : SseConsumer) × (s'.connected ≡ true) × (round world n s ≡ again [] s')
  unfolding round with_token opened
  connecting n s t h g c p = (
    record s {
      connected = true;
      pending_reconnect_event = (if s.was_connected then true else s.pending_reconnect_event);
    },
    refl,
    ground (arith, p, c, h, g),
  )

  open_round :
      (m n fuel : ℕ) (s : SseConsumer)
      → Recovers world m
      → m ≤ n
      → is_some (next_event world (suc (suc fuel)) n s) ≡ true
  unfolding next_event
  open_round m n fuel s r h = elim (Bool-cases s.connected) [
    | inl c ↦
        let (e, q) = r.events n h in
        let (x, s', p) = live_round n s e q c in ap is_some (returns_now (suc fuel) n s s' x p)
    | inr c ↦ elim (Bool-cases s.pending_reconnect_event) [
      | inl p ↦ ap is_some (
          returns_now (suc fuel) n s (record s { pending_reconnect_event = false }) reconnect
            (unfold round in ground (arith, p)))
      | inr p ↦
          let (t, q) = r.tokens n h in
          let (s', c', step) = connecting n s t q (r.connects n t h) c p in
          let (e, q') = r.events (suc n) (omega (arith, h)) in
          let (x, s'', last) = live_round (suc n) s' e q' c' in
          rw (step, next_event)
            (is_some-slept [] (next_event world (suc fuel) (suc n) s')
              (ap is_some (returns_now fuel (suc n) s' s'' x last)))
    ]
  ]

  -- If from some round on tokens are given, connects succeed and connections deliver, the consumer
  -- returns an event within the rounds up to that round and two more, whatever its state and
  -- whatever went wrong before.
  pub next_event_returns :
      (m n d : ℕ) (s : SseConsumer)
      → Recovers world m
      → m ≤ n + d
      → is_some (next_event world (suc (suc d)) n s) ≡ true
  next_event_returns m n zero s r h = open_round m n zero s r (omega (arith, h))
  next_event_returns m n (suc d) s r h =
      by_round (suc (suc d)) n s (λ s'. next_event_returns m (suc n) d s' r (omega (arith, h)))

-- A consumer that delivered before has lost its connection, or has yet to tell of the recovery.
abbrev pub Owes : SseConsumer → Type 0
Owes s = (s.was_connected ≡ true) × ((s.connected ≡ false) ⊎ (s.pending_reconnect_event ≡ true))

-- A round tells of the recovery, or leaves it owed.
abbrev Tells : Round → Type 0
Tells (returned event s) = event ≡ reconnect
Tells (again ds s) = Owes s

module _ (world : World) where
  sleep-Tells :
      (n : ℕ) (s : SseConsumer)
      → Owes s
      → s.connected ≡ false
      → Tells (sleep_with_backoff world n s)
  unfolding sleep_with_backoff
  sleep-Tells n s o c = (o.0, inl c)

  opened-Tells :
      (r : Result (Unit {0})) (n : ℕ) (s : SseConsumer)
      → Owes s
      → s.connected ≡ false
      → Tells (opened world r n s)
  unfolding opened
  opened-Tells (ok u) n s o c = (o.0, inr (ground (arith, o.0)))
  opened-Tells (err e) n s o c = sleep-Tells n s o c

  token-Tells :
      (r : Result Str) (n : ℕ) (s : SseConsumer)
      → Owes s
      → s.connected ≡ false
      → Tells (with_token world r n s)
  unfolding with_token
  token-Tells (ok t) n s o c = opened-Tells (world.connect n t) n s o c
  token-Tells (err e) n s o c = sleep-Tells n s o c

  round-Tells : (n : ℕ) (s : SseConsumer) → Owes s → Tells (round world n s)
  unfolding round
  round-Tells n s (was, o) = elim (Bool-cases s.pending_reconnect_event) [
    | inl p ↦ rw (p, round) refl
    | inr p ↦
        let c : s.connected ≡ false = ground (arith, p, o) in
        let step : round world n s ≡ with_token world (world.fetch_token n) n s =
          ground (arith, p, c) in
        subst Tells (sym step) (token-Tells (world.fetch_token n) n s (was, inl c) c)
  ]

  unslept :
      (ds : List ℕ) (p : Polled world) (s' : SseConsumer) (event : SseEvent) (rest : ℕ × List ℕ)
      → slept world ds p ≡ some (event, (s', rest))
      → (rest' : ℕ × List ℕ) × (p ≡ some (event, (s', rest')))
  unslept ds none s' event rest h = absurd (ground (arith, h))
  unslept ds (some (e, (t, (n, more)))) s' event rest h = ((n, more), ground (arith, h))

  -- A consumer that delivered before and has no connection, or has yet to tell of a reconnect,
  -- returns the reconnect marker before any other event, however many attempts it takes.
  pub next_event_tells :
      (fuel n : ℕ) (s s' : SseConsumer) (event : SseEvent) (rest : ℕ × List ℕ)
      → Owes s
      → next_event world fuel n s ≡ some (event, (s', rest))
      → event ≡ reconnect
  unfolding next_event
  next_event_tells zero n s s' event rest o h = absurd (ground (arith, h))
  next_event_tells (suc fuel) n s s' event rest o h =
      told (λ t rest'. next_event_tells fuel (suc n) t s' event rest') (round world n s)
        (round-Tells n s o) h
    where
      told :
          ((t : SseConsumer) (rest' : ℕ × List ℕ)
            → Owes t
            → next_event world fuel (suc n) t ≡ some (event, (s', rest'))
            → event ≡ reconnect)
          → (r : Round) → Tells r
          → (elim r as (λ x. Polled world) [
            | returned event s' ↦ some (event, (s', (suc n, [])))
            | again ds s' ↦ slept world ds (next_event world fuel (suc n) s')
          ])
            ≡ some (event, (s', rest))
          → event ≡ reconnect
      told ih (returned e t) q k = ground (arith, k, q)
      told ih (again ds t) q k =
          let (rest', p) = unslept ds (next_event world fuel (suc n) t) s' event rest k in
          ih t rest' q p
