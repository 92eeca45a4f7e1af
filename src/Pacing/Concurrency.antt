-- ===== src/Pacing/Concurrency.antt =====
-- How many requests the `Limiter` of core/internal/pacing/pacing.go lets in at once.
use abcmovies.Base.{ℕ, zero, suc, ◌+◌, ◌-◌, ◌≤◌, ◌<◌, ◌≡◌, refl, subst, none, some, arith}
use abcmovies.Pacing.Limiter.{
  Budget, Limiter, Callers, callers, new_limiter, spacing, turn, wake, release, Step, enter,
  fall_asleep, wake_up, give_up, finish, Reach, arrived, and_then,
}

-- The counter is the number of callers that run, and that is within the limit.
abbrev Bounded : Budget → Callers → Type 0
Bounded b c =
    (c.limiter.budget ≡ b)
    × (c.sleeping ≡ 0)
    × (c.limiter.inflight ≡ c.running)
    × (c.running ≤ b.max_concurrent)

step-Bounded :
    (b : Budget) (c d : Callers)
    → spacing b ≡ none
    → 0 < b.max_concurrent
    → Step c d
    → Bounded b c
    → Bounded b d
unfolding turn wake release
step-Bounded b c d free some_limit (enter l l' n m now e) (same, still, counted, few) =
    ground (arith, free, same, still, counted, few, e)
step-Bounded b c d free some_limit (fall_asleep l l' n m now wait e) (same, still, counted, few) =
    absurd (ground (arith, free, same, e))
step-Bounded b c d free some_limit (wake_up l n m) (same, still, counted, few) =
    absurd (omega arith)
step-Bounded b c d free some_limit (give_up l n m) (same, still, counted, few) =
    absurd (omega arith)
step-Bounded b c d free some_limit (finish l n m) (same, still, counted, few) =
    (same, still, omega arith, omega arith)

abbrev idle_start : Budget → Callers
idle_start b = callers (new_limiter b) 0 0

-- Under a budget that limits how many requests run at once and does not space them, no more than
-- `MaxConcurrent` run at once, however the callers' steps interleave: the counter of the limiter is
-- the number of callers that were admitted and have not released.
pub Reach-Bounded :
    (b : Budget) (c : Callers)
    → spacing b ≡ none
    → 0 < b.max_concurrent
    → Reach (callers (new_limiter b) 0 0) c
    → Bounded b c
unfolding new_limiter
Reach-Bounded b c free some_limit (arrived _) = (refl, refl, refl, omega arith)
Reach-Bounded b c free some_limit (and_then _ d _ before step) =
    step-Bounded b d c free some_limit step (Reach-Bounded b d free some_limit before)

-- A limiter that lets requests sleep into their slots, none of which runs.
abbrev Idle : Budget → Limiter → Type 0
Idle b l = (l.budget ≡ b) × (l.inflight ≡ 0) × (0 < l.next_ok)

-- Any number of callers fall asleep while none runs.
Reach-asleep :
    (b : Budget) (interval : ℕ)
    → spacing b ≡ some interval
    → 0 < interval
    → 0 < b.max_concurrent
    → (n : ℕ) → (l : Limiter) × Reach (idle_start b) (callers l n 0) × Idle b l
unfolding turn release new_limiter
Reach-asleep b interval spaced positive some_limit zero =
    let l : Limiter = record { budget = b; inflight = 1; next_ok = 0 + interval } in
    let first = enter (new_limiter b) l 0 0 0 (ground (arith, spaced)) in
    (
      release l,
      and_then _ _ _ (and_then _ _ _ (arrived (idle_start b)) first) (finish l 0 0),
      (refl, omega arith, omega arith),
    )
Reach-asleep b interval spaced positive some_limit (suc n) =
    let (l, before, (same, none_runs, later)) =
      Reach-asleep b interval spaced positive some_limit n in
    let l' : Limiter = record l { next_ok = l.next_ok + interval } in
    (
      l',
      and_then _ _ _ before
          (fall_asleep l l' n 0 0 (l.next_ok - 0) (ground (arith, same, none_runs, later, spaced))),
      (same, none_runs, omega arith),
    )

-- All of them wake, and no count is looked at again.
Reach-awake :
    (c : Callers) (n m : ℕ) (l : Limiter)
    → Reach c (callers l n m)
    → (l' : Limiter) × (all : ℕ) × Reach c (callers l' 0 all)
      × (all ≡ m + n)
      × (l'.inflight ≡ l.inflight + n)
unfolding wake
Reach-awake c zero m l before = (l, m, before, omega arith, omega arith)
Reach-awake c (suc n) m l before =
    let (l', all, after, runs, total) =
      Reach-awake c n (suc m) (wake l) (and_then _ _ _ before (wake_up l n m)) in
    (l', all, after, omega arith, omega arith)

-- Under a budget that spaces requests and limits how many run at once, any number of requests can
-- run at once: the limit is not looked at after the sleep.
pub Reach-overrun :
    (b : Budget) (interval : ℕ)
    → spacing b ≡ some interval
    → 0 < interval
    → 0 < b.max_concurrent
    → (n : ℕ)
    → (l : Limiter) × Reach (callers (new_limiter b) 0 0) (callers l 0 n) × (l.inflight ≡ n)
Reach-overrun b interval spaced positive some_limit n =
    let (l, before, (same, none_runs, later)) =
      Reach-asleep b interval spaced positive some_limit n in
    let (l', all, after, runs, total) = Reach-awake (idle_start b) n 0 l before in
    let exactly : all ≡ n = omega arith in
    (l', subst (λ k. Reach (idle_start b) (callers l' 0 k)) exactly after, omega arith)
