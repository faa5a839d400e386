-- ===== src/Retry/Examples.antt =====
-- Runs of the bounded retry.
use opake.Base.{ℕ, zero, suc, ◌≡◌, ◌≢◌, refl, none, some, codes, nat_eq}
use opake.Error.{Result, ok, err, workspace_not_indexed, visibility_timeout}
use opake.Retry.{Attempts, new_retry, next_delay, retry_visibility, attempt, is_visibility_gap}
use opake.Retry.Window.{
  FitsWindow, next_delay-FitsWindow, retry_visibility_ends, Decides, retry_visibility-Decides,
}

-- A workspace that is indexed before the third attempt.
abbrev answer : ℕ → Result ℕ
answer zero = err (workspace_not_indexed (codes "w"))
answer (suc zero) = err (workspace_not_indexed (codes "w"))
answer (suc (suc n)) = ok 7

abbrev third : Attempts ℕ
third = record { answer = answer; duration = λ n. 1000; overshoot = λ n. 500 }

next_delay-FitsWindow_example : FitsWindow new_retry 14900 (next_delay new_retry 14900).1
next_delay-FitsWindow_example = next_delay-FitsWindow new_retry 14900

retry_visibility_ends_example : retry_visibility third (codes "open") 61 5 ≢ none
retry_visibility_ends_example = retry_visibility_ends third (codes "open") 5

third_succeeds : retry_visibility third (codes "open") 61 5 ≡ some (ok 7)
unfolding retry_visibility attempt new_retry next_delay is_visibility_gap
third_succeeds = refl

-- A first attempt that outlasts the window.
abbrev slow : Attempts ℕ
slow = record {
  answer = λ n. err (workspace_not_indexed (codes "w"));
  duration = λ n. 20000500;
  overshoot = λ n. 0;
}

slow_fails :
    retry_visibility slow (codes "open") 61 70000000
    ≡ some (err (visibility_timeout (codes "open") 20000))
unfolding retry_visibility attempt new_retry next_delay is_visibility_gap
slow_fails = refl

retry_visibility-Decides_example :
    Decides slow (codes "open") 70000000 0 70000000 (err (visibility_timeout (codes "open") 20000))
retry_visibility-Decides_example =
    retry_visibility-Decides slow (codes "open") 61 70000000
      (err (visibility_timeout (codes "open") 20000)) slow_fails
