-- ===== src/Retry/Window.antt =====
-- The window and the outcomes of the retries of indexer/retry.rs.
use opake.Base.{
  ℕ, zero, suc, ◌+◌, ◌-◌, ◌*◌, ◌/◌, ◌≤◌, ◌<◌, ◌≡◌, ◌≢◌, refl, true, false, Option, none, some,
  arith, Bool-cases, Option-cases, inl, inr, Str, leb,
}
use opake.Error.{Error, Result, ok, err, visibility_timeout, Result-cases}
use opake.Retry.{
  VisibilityRetry, is_visibility_gap, new_retry, next_delay, Attempts, attempt, retry_visibility,
}

-- A refusal, or a delay, at `elapsed` milliseconds.
abbrev pub FitsWindow : VisibilityRetry → ℕ → Option ℕ → Type 0
FitsWindow s elapsed none = s.window_ms ≤ elapsed
FitsWindow s elapsed (some d) =
    (elapsed < s.window_ms) × (d ≤ s.delay_limit_ms) × (elapsed + d ≤ s.window_ms)

-- A delay is refused only if the window is over; a delay that is given is inside the window, at
-- most the ceiling, and never pushes the total wait past the window.
pub next_delay-FitsWindow :
    (s : VisibilityRetry) (elapsed : ℕ) → FitsWindow s elapsed (next_delay s elapsed).1
unfolding next_delay
next_delay-FitsWindow s elapsed = elim (Bool-cases (leb s.window_ms elapsed)) [
  | inl b ↦ rw b (ground arith)
  | inr b ↦ rw b (ground arith, ground arith, ground arith)
]

-- The schedule never falls below the first delay.
record IsSchedule (s : VisibilityRetry) : Type 0 where
  next : 250 ≤ s.next_ms
  window : s.window_ms ≡ 15000
  limit : s.delay_limit_ms ≡ 4000

next_delay-IsSchedule :
    (s : VisibilityRetry) (elapsed : ℕ) → IsSchedule s → IsSchedule (next_delay s elapsed).0
unfolding next_delay
next_delay-IsSchedule s elapsed w = record {
  next = ground (arith, w.next, w.limit);
  window = ground (arith, w.window);
  limit = ground (arith, w.limit);
}

next_delay-progress :
    (s : VisibilityRetry) (elapsed d m : ℕ)
    → IsSchedule s
    → (next_delay s elapsed).1 ≡ some d
    → 15000 ≤ elapsed + 250 * suc m
    → 15000 ≤ elapsed + d + 250 * m
unfolding next_delay
next_delay-progress s elapsed d m w h b = ground (arith, w.next, w.window, w.limit)

next_delay-inside :
    (s : VisibilityRetry) (elapsed d : ℕ)
    → IsSchedule s
    → (next_delay s elapsed).1 ≡ some d
    → (0 < d) × (d ≤ 4000) × (elapsed + d ≤ 15000)
unfolding next_delay
next_delay-inside s elapsed d w h = (
  ground (arith, w.next, w.window, w.limit),
  ground (arith, w.next, w.window, w.limit),
  ground (arith, w.next, w.window, w.limit),
)

elapsed_after :
    (start after d over : ℕ)
    → start ≤ after
    → (after - start) / 1000 + d ≤ (after + d * 1000 + over - start) / 1000
elapsed_after start after d over h = omega arith

elapsed_grows : (start clock d : ℕ) → (clock - start) / 1000 ≤ (clock + d - start) / 1000
elapsed_grows start clock d = omega arith

new_retry-IsSchedule : IsSchedule new_retry
unfolding new_retry
new_retry-IsSchedule = record { next = omega arith; window = refl; limit = refl }

module _ {ℓ} {A : Type ℓ} (op : Attempts A) (operation : Str) where
  attempt-ends :
      (fuel : ℕ) (s : VisibilityRetry) (start n clock : ℕ)
      → IsSchedule s
      → start ≤ clock
      → 15000 ≤ (clock - start) / 1000 + 250 * fuel
      → attempt op operation (suc fuel) s start n clock ≢ none
  unfolding attempt
  attempt-ends zero s start n clock w b enough =
      let after : ℕ = clock + op.duration n in
      let elapsed : ℕ = (after - start) / 1000 in
      elim (Result-cases (op.answer n)) [
        | inr (v, e) ↦ ground (arith, e)
        | inl (x, e) ↦ elim (Bool-cases (is_visibility_gap x)) [
          | inr g ↦ ground (arith, e, g)
          | inl g ↦ elim (Option-cases (next_delay s elapsed).1) [
            | inl d ↦ ground (arith, e, g, d)
            | inr (delay, d) ↦ absurd (
                unfold next_delay in
                ground (arith, d, w.window, elapsed_grows start clock (op.duration n)))
          ]
        ]
      ]
  attempt-ends (suc m) s start n clock w b enough =
      let after : ℕ = clock + op.duration n in
      let elapsed : ℕ = (after - start) / 1000 in
      elim (Result-cases (op.answer n)) [
        | inr (v, e) ↦ ground (arith, e)
        | inl (x, e) ↦ elim (Bool-cases (is_visibility_gap x)) [
          | inr g ↦ ground (arith, e, g)
          | inl g ↦ elim (Option-cases (next_delay s elapsed).1) [
            | inl d ↦ ground (arith, e, g, d)
            | inr (delay, d) ↦
                let far : 15000 ≤ elapsed + 250 * suc m =
                  omega (arith, elapsed_grows start clock (op.duration n)) in
                let left = next_delay-progress s elapsed delay m w d far in
                let rest =
                  attempt-ends m (next_delay s elapsed).0 start (suc n)
                    (after + delay * 1000 + op.overshoot n) (next_delay-IsSchedule s elapsed w)
                    (omega arith)
                    (omega
                      (arith, elapsed_after start after delay (op.overshoot n) (omega arith))) in
                ground (arith, e, g, d, rest)
          ]
        ]
      ]

  -- Sixty-one units of fuel are always enough for the retries, however long the attempts take and
  -- whatever they answer.
  pub retry_visibility_ends : (start : ℕ) → retry_visibility op operation 61 start ≢ none
  unfolding retry_visibility
  retry_visibility_ends start =
      attempt-ends 60 new_retry start 0 start new_retry-IsSchedule (omega arith) (omega arith)

  -- The result `r` came from the attempts from the n-th on, which begins at `clock`: gaps, each
  -- inside the window and followed by a sleep, and then the attempt that decided. A timeout reports
  -- the whole milliseconds from the start of the call to the end of its last attempt.
  pub data Decides (start : ℕ) : ℕ → ℕ → Result A → Type ℓ where
    success : (n clock : ℕ) (value : A) → op.answer n ≡ ok value → Decides start n clock (ok value)
    failure :
        (n clock : ℕ) (e : Error)
        → op.answer n ≡ err e
        → is_visibility_gap e ≡ false
        → Decides start n clock (err e)
    timeout :
        (n clock : ℕ) (e : Error) (waited : ℕ)
        → op.answer n ≡ err e
        → is_visibility_gap e ≡ true
        → 15000 ≤ waited
        → start + waited * 1000 ≤ clock + op.duration n
        → clock + op.duration n < start + waited * 1000 + 1000
        → Decides start n clock (err (visibility_timeout operation waited))
    again :
        (n clock : ℕ) (e : Error) (r : Result A) (delay : ℕ)
        → op.answer n ≡ err e
        → is_visibility_gap e ≡ true
        → 0 < delay
        → delay ≤ 4000
        → clock + op.duration n + delay * 1000 < start + 15001000
        → Decides start (suc n) (clock + op.duration n + delay * 1000 + op.overshoot n) r
        → Decides start n clock r

  attempt-Decides :
      (fuel : ℕ) (s : VisibilityRetry) (start n clock : ℕ) (r : Result A)
      → IsSchedule s
      → start ≤ clock
      → attempt op operation fuel s start n clock ≡ some r
      → Decides start n clock r
  unfolding attempt
  attempt-Decides zero s start n clock r w b h = cc h
  attempt-Decides (suc fuel) s start n clock r w b h =
      let after : ℕ = clock + op.duration n in
      let elapsed : ℕ = (after - start) / 1000 in
      elim (Result-cases (op.answer n)) [
        | inr (v, e) ↦ let q : r ≡ ok v = ground (arith, e) in rw q (success n clock v e)
        | inl (x, e) ↦ elim (Bool-cases (is_visibility_gap x)) [
          | inr g ↦ let q : r ≡ err x = ground (arith, e, g) in rw q (failure n clock x e g)
          | inl g ↦ elim (Option-cases (next_delay s elapsed).1) [
            | inl d ↦
                let q : r ≡ err (visibility_timeout operation elapsed) = ground (arith, e, g, d) in
                let over : 15000 ≤ elapsed = unfold next_delay in ground (arith, d, w.window) in
                rw q (timeout n clock x elapsed e g over (omega arith) (omega arith))
            | inr (delay, d) ↦
                let (some_delay, limit, inside) = next_delay-inside s elapsed delay w d in
                again n clock x r delay e g some_delay limit (omega arith) (
                  attempt-Decides fuel (next_delay s elapsed).0 start (suc n)
                    (after + delay * 1000 + op.overshoot n) r (next_delay-IsSchedule s elapsed w)
                    (omega arith) (ground (arith, e, g, d)))
          ]
        ]
      ]

  -- A call that returns gives the value of the first attempt that is no visibility gap, or its
  -- error unchanged, or a timeout; between attempts it sleeps, at most four seconds and never
  -- planned past the window of 15 seconds, and the timeout is reported at the first gap after the
  -- window, with the whole milliseconds since the start of the call.
  pub retry_visibility-Decides :
      (fuel start : ℕ) (r : Result A)
      → retry_visibility op operation fuel start ≡ some r
      → Decides start 0 start r
  unfolding retry_visibility
  retry_visibility-Decides fuel start r h =
      attempt-Decides fuel new_retry start 0 start r new_retry-IsSchedule (omega arith) h
