-- ===== src/Retry.antt =====
-- indexer/retry.rs of crates/opake-core: the bounded backoff at the indexer boundary. The clock, in
-- microseconds, is explicit: the attempts and the sleeps move it on by times that the loop does not
-- know. The loop takes fuel: `none` is fuel that ran out.
pub mod Window
mod Examples
use opake.Base.{
  ℕ, zero, suc, ◌+◌, ◌-◌, ◌*◌, ◌/◌, ◌%◌, Bool, true, false, ◌==◌, nat_eq, Option, none, some, leb,
  if◌then◌else◌, Str,
}
use opake.Error.{
  Error, Result, ok, err, indexer, workspace_not_indexed, not_found, visibility_timeout,
}

abbrev pub initial_delay_ms : ℕ
initial_delay_ms = 250

abbrev pub max_delay_ms : ℕ
max_delay_ms = 4000

abbrev pub max_window_ms : ℕ
max_window_ms = 15000

pub is_visibility_gap : Error → Bool
is_visibility_gap (workspace_not_indexed id) = true
is_visibility_gap (not_found m) = true
is_visibility_gap (indexer status m) = status == 404
is_visibility_gap _ = false

pub record VisibilityRetry : Type 0 where
  pub next_ms : ℕ
  pub window_ms : ℕ
  pub delay_limit_ms : ℕ

abbrev pub min : ℕ → ℕ → ℕ
min a b = if leb a b then a else b

-- `u64::saturating_mul(2)`.
abbrev pub saturating_double : ℕ → ℕ
saturating_double n = min (n * 2) 18446744073709551615

pub new_retry : VisibilityRetry
new_retry = record {
  next_ms = initial_delay_ms;
  window_ms = max_window_ms;
  delay_limit_ms = max_delay_ms;
}

pub next_delay : VisibilityRetry → ℕ → VisibilityRetry × Option ℕ
next_delay s elapsed_ms = if leb s.window_ms elapsed_ms then (s, none) else (
  record s { next_ms = min (saturating_double s.next_ms) s.delay_limit_ms },
  some (min (min s.next_ms s.delay_limit_ms) (s.window_ms - elapsed_ms)),
)

-- The answer of the n-th attempt, how long it takes, and by how much the n-th sleep overshoots.
pub record Attempts {ℓ} (A : Type ℓ) : Type ℓ where
  pub answer : ℕ → Result A
  pub duration : ℕ → ℕ
  pub overshoot : ℕ → ℕ

module _ {ℓ} {A : Type ℓ} (op : Attempts A) (operation : Str) where
  -- `n` attempts were made before; `clock` is the time before this one.
  pub attempt : ℕ → VisibilityRetry → ℕ → ℕ → ℕ → Option (Result A)
  attempt zero s start n clock = none
  attempt (suc fuel) s start n clock =
      let after = clock + op.duration n in
      let elapsed_ms = (after - start) / 1000 in
      elim (op.answer n) [
        | ok value ↦ some (ok value)
        | err error ↦ elim (is_visibility_gap error) [
          | false ↦ some (err error)
          | true ↦ elim (next_delay s elapsed_ms).1 [
            | none ↦ some (err (visibility_timeout operation elapsed_ms))
            | some delay ↦
                attempt fuel (next_delay s elapsed_ms).0 start (suc n)
                  (after + delay * 1000 + op.overshoot n)
          ]
        ]
      ]

  pub retry_visibility : ℕ → ℕ → Option (Result A)
  retry_visibility fuel start = attempt fuel new_retry start 0 start
