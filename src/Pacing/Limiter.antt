-- ===== src/Pacing/Limiter.antt =====
-- The `Limiter` of core/internal/pacing/pacing.go. Times and durations are nanoseconds from 0, the
-- zero time.
use abcmovies.Base.{ℕ, suc, ◌+◌, ◌-◌, ◌≡◌, ◌&&◌, ltb, leb, if◌then◌else◌, Option, none, some}

-- `rate_interval` is `time.Second / RequestsPerSec`, where the rate is positive; a limit that is not
-- positive is 0.
pub record Budget : Type 0 where
  pub rate_interval : Option ℕ
  pub max_concurrent : ℕ
  pub min_spacing : ℕ

pub record Limiter : Type 0 where
  pub budget : Budget
  pub inflight : ℕ
  pub next_ok : ℕ

unfoldable pub new_limiter : Budget → Limiter
new_limiter b = record { budget = b; inflight = 0; next_ok = 0 }

-- The time between two slots, if the budget spaces requests at all.
unfoldable pub spacing : Budget → Option ℕ
spacing b = elim b.rate_interval [
  | some interval ↦ some interval
  | none ↦ if ltb 0 b.min_spacing then some b.min_spacing else none
]

-- How one pass of the loop of `Allow` ends: it polls again, it admits, or it sleeps into a slot.
pub data Turn : Type 0 where
  polls : Turn
  admits : Limiter → Turn
  sleeps : ℕ → Limiter → Turn

unfoldable pub turn : Limiter → ℕ → Turn
turn l now =
    if ltb 0 l.budget.max_concurrent && leb l.budget.max_concurrent l.inflight
    then polls
    else elim (spacing l.budget) [
      | none ↦ admits (record l { inflight = suc l.inflight })
      | some interval ↦
          if ltb now l.next_ok
          then sleeps (l.next_ok - now) (record l { next_ok = l.next_ok + interval })
          else admits (record l { inflight = suc l.inflight; next_ok = now + interval })
    ]

-- The end of the sleep.
unfoldable pub wake : Limiter → Limiter
wake l = record l { inflight = suc l.inflight }

-- `inflight` stays at 0.
unfoldable pub release : Limiter → Limiter
release l = record l { inflight = l.inflight - 1 }

-- A limiter among its callers: how many of them sleep, and how many have been admitted and have not
-- released yet.
pub record Callers : Type 0 where
  pub limiter : Limiter
  pub sleeping : ℕ
  pub running : ℕ

abbrev pub callers : Limiter → ℕ → ℕ → Callers
callers l sleeping running = record { limiter = l; sleeping = sleeping; running = running }

-- What a caller may do next, each under the lock. A caller that was admitted releases once.
pub data Step : Callers → Callers → Type 0 where
  enter :
      (l l' : Limiter) (n m now : ℕ)
      → turn l now ≡ admits l'
      → Step (callers l n m) (callers l' n (suc m))
  fall_asleep :
      (l l' : Limiter) (n m now wait : ℕ)
      → turn l now ≡ sleeps wait l'
      → Step (callers l n m) (callers l' (suc n) m)
  wake_up : (l : Limiter) (n m : ℕ) → Step (callers l (suc n) m) (callers (wake l) n (suc m))
  give_up : (l : Limiter) (n m : ℕ) → Step (callers l (suc n) m) (callers l n m)
  finish : (l : Limiter) (n m : ℕ) → Step (callers l n (suc m)) (callers (release l) n m)

pub data Reach : Callers → Callers → Type 0 where
  arrived : (c : Callers) → Reach c c
  and_then : (c d e : Callers) → Reach c d → Step d e → Reach c e
