-- ===== src/Sse/Consumer/Examples.antt =====
-- Runs of the loop of indexer/sse/consumer.rs.
use opake.Base.{◌≡◌, refl, inl, true, some, [], codes, is_some, arith}
use opake.Error.{ok}
use opake.Events.{directory_delete, reconnect}
use opake.Sse.Consumer.{World, SseConsumer, new_consumer, round, with_token, opened, next_event}
use opake.Sse.Consumer.Rounds.{Recovers, next_event_returns, next_event_tells}

-- Every round succeeds, and delivers one delete.
abbrev steady : World
steady = record {
  fetch_token = λ n. ok (codes "t");
  connect = λ n t. ok tt;
  next_event = λ n. ok (some (directory_delete (codes "x")));
  jittered = λ n ms. ms;
}

steady-Recovers : Recovers steady 0
steady-Recovers = record {
  tokens = λ j h. (codes "t", refl);
  connects = λ j t h. refl;
  events = λ j h. (directory_delete (codes "x"), refl);
}

next_event_returns_example : is_some (next_event steady 2 5 new_consumer) ≡ true
next_event_returns_example =
    next_event_returns steady 0 5 0 new_consumer steady-Recovers (omega arith)

abbrev dropped : SseConsumer
dropped = record new_consumer { was_connected = true }

abbrev recovered : SseConsumer
recovered = record dropped { connected = true }

polled : next_event steady 2 0 dropped ≡ some (reconnect, (recovered, (2, [])))
unfolding next_event round with_token opened
polled = refl

next_event_tells_example : reconnect ≡ reconnect
next_event_tells_example =
    next_event_tells steady 2 0 dropped recovered reconnect (2, []) (refl, inl refl) polled
