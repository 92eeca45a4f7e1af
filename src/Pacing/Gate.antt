-- ===== src/Pacing/Gate.antt =====
-- `Gate` of core/internal/pacing/pacing.go: one request under a limiter and the governor, with retries.
-- What the clocks, the contexts and the provider do is a script with an entry for each attempt.
use abcmovies.Base.{ℕ, zero, suc, Bool, List, [], ◌∷◌, if◌then◌else◌}
use abcmovies.Base.Int.{ℤ, pos, negsuc}
use abcmovies.Pacing.Governor.{
  Governor, Answer, degraded, admitted, parked, allow, unpark, note_error, note_success,
}

-- How a request ends: well, by an error, or by its context.
pub data Reply : Type 0 where
  fine : Reply
  failed : Reply
  cancelled : Reply

-- One attempt: whether the limiter admits it before its context is done, what other callers did to
-- the governor, the time at which it is asked, whether a parked caller comes to its slot, the reply,
-- and the time at which an error is noted.
pub record Attempt : Type 0 where
  pub limited : Bool
  pub others : Governor → Governor
  pub asked : ℕ
  pub slot_reached : Bool
  pub reply : Reply
  pub noted : ℕ

-- What a caller sees of the limiter and of the request.
pub data Event : Type 0 where
  acquires : Event
  calls : Event
  releases : Event

pub data GateResult : Type 0 where
  succeeded : GateResult
  busy : ℕ → GateResult
  context_done : GateResult
  exhausted : GateResult

pub record Gated : Type 0 where
  pub result : GateResult
  pub governor : Governor
  pub events : List Event

abbrev pub gated : GateResult → Governor → List Event → Gated
gated result g events = record { result = result; governor = g; events = events }

-- The events of an attempt before those of the later ones.
abbrev pub retried : Gated → Gated
retried r = record r { events = acquires ∷ calls ∷ releases ∷ r.events }

-- What follows the request; `again` is what the next attempt does with the governor it finds.
unfoldable pub replied : Reply → Governor → ℕ → (Governor → Gated) → Gated
replied fine g now again = gated succeeded (note_success g) (acquires ∷ calls ∷ releases ∷ [])
replied failed g now again = retried (again (note_error g now))
replied cancelled g now again =
    gated context_done (note_error g now) (acquires ∷ calls ∷ releases ∷ [])

-- What follows the governor's answer.
unfoldable pub governed : Attempt → Governor → Answer → (Governor → Gated) → Gated
governed a g (degraded position) again = gated (busy position) g (acquires ∷ releases ∷ [])
governed a g (admitted h) again = replied a.reply h a.noted again
governed a g (parked wait h) again =
    if a.slot_reached
    then replied a.reply (unpark h) a.noted again
    else gated context_done (unpark h) (acquires ∷ releases ∷ [])

unfoldable pub attempt : Attempt → Governor → (Governor → Gated) → Gated
attempt a g again =
    if a.limited
    then governed a (a.others g) (allow (a.others g) a.asked) again
    else gated context_done g []

-- The loop with the attempts that are left, from the k-th on.
unfoldable pub gate_from : (ℕ → Attempt) → ℕ → ℕ → Governor → Gated
gate_from script zero k g = gated exhausted g []
gate_from script (suc left) k g = attempt (script k) g (λ h. gate_from script left (suc k) h)

-- `attempt <= MaxRetries` from 0 on.
abbrev pub attempts : ℤ → ℕ
attempts (pos n) = suc n
attempts (negsuc n) = 0

-- `Gate`
unfoldable pub gate : ℤ → (ℕ → Attempt) → Governor → Gated
gate max_retries script g = gate_from script (attempts max_retries) 0 g
