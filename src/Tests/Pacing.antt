-- ===== src/Tests/Pacing.antt =====
-- Concrete budgets for the theorems on core/internal/pacing.
use abcmovies.Base.{count, ℕ, ◌*◌, true, ◌≤◌, ◌≡◌, refl, none, some, arith}
use abcmovies.Pacing.Limiter.{
  Budget, Limiter, callers, new_limiter, spacing, Reach, arrived, and_then, enter, turn,
}
use abcmovies.Pacing.Concurrency.{Reach-Bounded, Reach-overrun}
use abcmovies.Pacing.Gate.{Attempt, failed, busy, gate}
use abcmovies.Pacing.Retries.{Bounded, is_call, gate-Bounded, gate_once}
use abcmovies.Base.Int.{pos}
use abcmovies.Pacing.Governor.{Governor, delay, shifted, allow, note_error}

abbrev unspaced : Budget
unspaced = record { rate_interval = none; max_concurrent = 1; min_spacing = 0 }

abbrev spaced : Budget
spaced = record { rate_interval = some 100; max_concurrent = 1; min_spacing = 0 }

abbrev running : Limiter
running = record { budget = unspaced; inflight = 1; next_ok = 0 }

one_runs : Reach (callers (new_limiter unspaced) 0 0) (callers running 0 1)
unfolding turn spacing new_limiter
one_runs = and_then _ _ _ (arrived _) (enter (new_limiter unspaced) running 0 0 0 refl)

Reach-Bounded_example : (unspaced ≡ unspaced) × (◌≡◌ {A = ℕ} 0 0) × (◌≡◌ {A = ℕ} 1 1) × (1 ≤ 1)
unfolding spacing
Reach-Bounded_example = Reach-Bounded unspaced (callers running 0 1) refl (omega arith) one_runs

Reach-overrun_example :
    (l : Limiter) × Reach (callers (new_limiter spaced) 0 0) (callers l 0 2) × (l.inflight ≡ 2)
unfolding spacing
Reach-overrun_example = Reach-overrun spaced 100 refl (omega arith) (omega arith) 2

abbrev governor : Governor
governor = record {
  rate_interval = some 100;
  next_ok = 0;
  fails = 2;
  backoff_until = 0;
  base = 10;
  max = 1000;
  waiters = 3;
}

third_failure : delay 10 1000 3 ≡ 40
unfolding delay shifted
third_failure = refl

-- The first request fails at 10, and the retry asks a microsecond later.
abbrev failing : ℕ → Attempt
failing k = record {
  limited = true;
  others = λ g. g;
  asked = k * 11;
  slot_reached = true;
  reply = failed;
  noted = 10;
}

abbrev resting : Governor
resting = record {
  rate_interval = none;
  next_ok = 0;
  fails = 0;
  backoff_until = 0;
  base = 1000;
  max = 30000;
  waiters = 0;
}

gate-Bounded_example : Bounded 4 (gate (pos 3) failing resting).events
gate-Bounded_example = gate-Bounded (pos 3) failing resting

gate_once_example :
    ((gate (pos 3) failing resting).result ≡ busy 0)
    × (count is_call (gate (pos 3) failing resting).events ≡ 1)
unfolding allow note_error delay shifted
gate_once_example = gate_once 2 failing resting resting refl refl refl refl refl (omega arith)
