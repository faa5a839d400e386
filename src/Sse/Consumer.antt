-- ===== src/Sse/Consumer.antt =====
-- crates/opake-core, indexer/sse/consumer.rs and reconnect.rs: the loop that connects, delivers and
-- reconnects. What the transport, the token endpoint and the jitter answer in each round of the loop
-- is the parameter `World`, read at the number of the round.
pub mod Rounds
mod Examples
use opake.Base.{
  ℕ, zero, suc, ◌*◌, Bool, true, false, ◌&&◌, Option, none, some, List, [], ◌∷◌, ◌++◌, Str, ltb,
  if◌then◌else◌,
}
use opake.Error.{Result, ok, err}
use opake.Events.{SseEvent, reconnect}

abbrev default_initial_delay_ms : ℕ
default_initial_delay_ms = 1000

abbrev default_max_delay_ms : ℕ
default_max_delay_ms = 30000

pub record BackoffPolicy : Type 0 where
  pub current_ms : ℕ
  pub max_ms : ℕ

abbrev pub new_policy : BackoffPolicy
new_policy = record { current_ms = default_initial_delay_ms; max_ms = default_max_delay_ms }

abbrev pub with_max : ℕ → BackoffPolicy
with_max max_ms = record { current_ms = default_initial_delay_ms; max_ms = max_ms }

unfoldable pub reset : BackoffPolicy → BackoffPolicy
reset p = record p { current_ms = default_initial_delay_ms }

abbrev min : ℕ → ℕ → ℕ
min a b = if ltb b a then b else a

-- The delay, jittered by floating-point arithmetic that stays a parameter, and the next state.
unfoldable pub next_delay : (ℕ → ℕ) → BackoffPolicy → ℕ × BackoffPolicy
next_delay jittered p =
    (jittered p.current_ms, record p { current_ms = min (p.current_ms * 2) p.max_ms })

pub record World : Type 0 where
  pub fetch_token : ℕ → Result Str
  pub connect : ℕ → Str → Result (Unit {0})
  pub next_event : ℕ → Result (Option SseEvent)
  pub jittered : ℕ → ℕ → ℕ

pub record SseConsumer : Type 0 where
  pub backoff : BackoffPolicy
  pub was_connected : Bool
  pub connected : Bool
  pub pending_reconnect_event : Bool

abbrev pub new_consumer : SseConsumer
new_consumer = record {
  backoff = new_policy;
  was_connected = false;
  connected = false;
  pending_reconnect_event = false;
}

unfoldable pub force_reconnect : SseConsumer → SseConsumer
force_reconnect s = record s { connected = false }

-- What one round of the loop does: an event, or another round, with the sleep before it.
pub data Round : Type 0 where
  returned : SseEvent → SseConsumer → Round
  again : List ℕ → SseConsumer → Round

module _ (world : World) where
  unfoldable pub sleep_with_backoff : ℕ → SseConsumer → Round
  sleep_with_backoff n s =
      let (delay, backoff) = next_delay (world.jittered n) s.backoff in
      again (delay ∷ []) (record s { backoff = backoff })

  unfoldable pub pull : Result (Option SseEvent) → ℕ → SseConsumer → Round
  pull (ok (some event)) n s =
      returned event (record s { was_connected = true; backoff = reset s.backoff })
  pull (ok none) n s = sleep_with_backoff n (record s { connected = false })
  pull (err e) n s = sleep_with_backoff n (record s { connected = false })

  unfoldable pub opened : Result (Unit {0}) → ℕ → SseConsumer → Round
  opened (ok u) n s = again [] (record s {
    connected = true;
    pending_reconnect_event = (if s.was_connected then true else s.pending_reconnect_event);
  })
  opened (err e) n s = sleep_with_backoff n s

  unfoldable pub with_token : Result Str → ℕ → SseConsumer → Round
  with_token (ok token) n s = opened (world.connect n token) n s
  with_token (err e) n s = sleep_with_backoff n s

  unfoldable pub round : ℕ → SseConsumer → Round
  round n s =
      if s.pending_reconnect_event
      then returned reconnect (record s { pending_reconnect_event = false })
      else if s.connected
      then pull (world.next_event n) n s
      else with_token (world.fetch_token n) n s

  -- The event, the consumer, the number of the next round, and the sleeps; `none` when fuel runs out.
  abbrev pub Polled : Type 0
  Polled = Option (SseEvent × (SseConsumer × (ℕ × List ℕ)))

  abbrev slept : List ℕ → Polled → Polled
  slept ds none = none
  slept ds (some (event, (s, (n, more)))) = some (event, (s, (n, ds ++ more)))

  unfoldable pub next_event : ℕ → ℕ → SseConsumer → Polled
  next_event zero n s = none
  next_event (suc fuel) n s = elim (round n s) [
    | returned event s' ↦ some (event, (s', (suc n, [])))
    | again ds s' ↦ slept ds (next_event fuel (suc n) s')
  ]
