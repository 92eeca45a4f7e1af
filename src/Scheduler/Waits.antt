-- ===== src/Scheduler/Waits.antt =====
-- The waits of core/internal/scheduler/scheduler.go, in nanoseconds. `spread` is the tenth of a duration that
-- Go computes in floats, and the random number of a jitter is an argument.
use abcmovies.Base.{
  ℕ, suc, ◌+◌, ◌-◌, ◌*◌, ◌/◌, ◌%◌, ◌^◌, ◌≤◌, ◌≡◌, Bool, true, false, ◌||◌, ltb, eqb, if◌then◌else◌,
  arith, Bool-cases, inl, inr, refl,
}

-- Six hours, a minute, a day and a second.
abbrev pub default_cadence : ℕ
default_cadence = 21600000000000

abbrev pub backoff_base : ℕ
backoff_base = 60000000000

abbrev pub backoff_max : ℕ
backoff_max = 86400000000000

abbrev pub min_wait : ℕ
min_wait = 1000000000

module _ (spread : ℕ → ℕ) where
  -- `draw` is below `2*spread + 1`.
  unfoldable pub jittered : ℕ → ℕ → ℕ
  jittered draw d = if eqb (spread d) 0 then d else d - spread d + draw % (2 * spread d + 1)

  -- `backoffBase << (failures - 1)` in 64 bits, as an unsigned number: from `2 ^ 63` it is negative.
  unfoldable pub shifted_base : ℕ → ℕ
  shifted_base failures = (backoff_base * 2 ^ (failures - 1)) % 18446744073709551616

  -- What the shift leads to.
  unfoldable pub bounded_backoff : ℕ → ℕ → ℕ
  bounded_backoff draw d =
      if ltb backoff_max d || eqb d 0
      then backoff_max
      else if ltb d min_wait
      then min_wait
      else jittered draw d

  unfoldable pub backoff : ℕ → ℕ → ℕ
  backoff draw failures = bounded_backoff draw (shifted_base failures)

  -- One round of `loop` after a run: the failures in a row, and the wait.
  unfoldable pub after_run : ℕ → ℕ → ℕ → Bool → ℕ × ℕ
  after_run cadence draw failures true = (0, jittered draw cadence)
  after_run cadence draw failures false = (suc failures, backoff draw (suc failures))

  -- The float product is the tenth, give or take a nanosecond.
  abbrev pub IsTenth : Type 0
  IsTenth = (d : ℕ) → spread d ≤ d / 10 + 1

  jittered-near :
      (draw d : ℕ)
      → IsTenth
      → 10 ≤ d
      → (d ≤ jittered draw d + (d / 10 + 1)) × (jittered draw d ≤ d + (d / 10 + 1))
  unfolding jittered
  jittered-near draw d tenth big = ground (arith, tenth d)

  bounded_backoff-within :
      (draw d : ℕ)
      → IsTenth
      → (min_wait ≤ bounded_backoff draw d + (min_wait / 10 + 1))
        × (bounded_backoff draw d ≤ backoff_max + (backoff_max / 10 + 1))
  unfolding bounded_backoff
  bounded_backoff-within draw d tenth = elim (Bool-cases (ltb backoff_max d || eqb d 0)) [
    | inl over ↦ rw over (omega arith, omega arith)
    | inr under ↦ elim (Bool-cases (ltb d min_wait)) [
      | inl low ↦ rw (under, low) (omega arith, omega arith)
      | inr high ↦
          let floor : min_wait ≤ d = ground (arith, high) in
          let ceiling : d ≤ backoff_max = ground (arith, under) in
          let (lower, upper) = jittered-near draw d tenth (omega (arith, floor)) in
          rw (under, high) (omega (arith, lower, floor), omega (arith, upper, ceiling))
    ]
  ]

  -- After any number of failures, whatever the shift overflows to and the jitter draws, a job waits
  -- nine tenths of the floor at least and eleven tenths of the ceiling at most, each up to a
  -- nanosecond; a success resets the count.
  pub after_run-bounds :
      (cadence draw failures : ℕ)
      → IsTenth
      → let (n, wait) = after_run cadence draw failures false in
        (n ≡ suc failures)
        × (min_wait ≤ wait + (min_wait / 10 + 1))
        × (wait ≤ backoff_max + (backoff_max / 10 + 1))
        × ((after_run cadence draw failures true).0 ≡ 0)
  unfolding after_run backoff
  after_run-bounds cadence draw failures tenth =
      let (lower, upper) = bounded_backoff-within draw (shifted_base (suc failures)) tenth in
      (refl, lower, upper, refl)
