-- ===== src/Pacing/Retries.antt =====
-- `Gate` of core/internal/pacing/pacing.go: its bound, its use of the limiter, and its retries.
use abcmovies.Base.{
  ℕ, zero, suc, ◌+◌, ◌≤◌, ◌<◌, ◌≡◌, refl, Bool, true, false, List, [], ◌∷◌, count, ap, arith,
  Bool-cases, inl, inr, ◌∙◌,
}
use abcmovies.Base.Int.{ℤ, pos}
use abcmovies.Pacing.Governor.{
  Governor, Answer, degraded, admitted, parked, allow, unpark, delay, note_error,
}
use abcmovies.Pacing.Gate.{
  Attempt, Reply, fine, failed, cancelled, Event, acquires, calls, releases, busy, Gated, gated,
  retried, replied, governed, attempt, gate_from, attempts, gate,
}

abbrev pub is_call : Event → Bool
is_call acquires = false
is_call calls = true
is_call releases = false

-- The limiter is released before it is acquired again, and a request runs only in between.
abbrev pub IsBracketed : List Event → Type 0
IsBracketed [] = Unit
IsBracketed (acquires ∷ releases ∷ events) = IsBracketed events
IsBracketed (acquires ∷ calls ∷ releases ∷ events) = IsBracketed events
IsBracketed others = ⊥

allow-soon :
    (h : Governor) (noted asked : ℕ)
    → asked < noted + delay h.base h.max (suc h.fails)
    → allow (note_error h noted) asked ≡ degraded h.waiters
unfolding allow note_error
allow-soon h noted asked soon = ground arith

-- At most so many requests, each under the limiter, which is released at the end.
abbrev pub Bounded : ℕ → List Event → Type 0
Bounded n events = IsBracketed events × (count is_call events ≤ n)

replied-Bounded :
    (r : Reply) (g : Governor) (now n : ℕ) (again : Governor → Gated)
    → ((h : Governor) → Bounded n (again h).events)
    → Bounded (suc n) (replied r g now again).events
unfolding replied
replied-Bounded fine g now n again h = (tt, omega arith)
replied-Bounded failed g now n again h =
    let (brackets, few) = h (note_error g now) in (brackets, omega (arith, few))
replied-Bounded cancelled g now n again h = (tt, omega arith)

governed-Bounded :
    (a : Attempt) (g : Governor) (answer : Answer) (n : ℕ) (again : Governor → Gated)
    → ((h : Governor) → Bounded n (again h).events)
    → Bounded (suc n) (governed a g answer again).events
unfolding governed
governed-Bounded a g (degraded position) n again h = (tt, omega arith)
governed-Bounded a g (admitted e) n again h = replied-Bounded a.reply e a.noted n again h
governed-Bounded a g (parked wait e) n again h = elim (Bool-cases a.slot_reached) [
  | inl reached ↦ rw reached (replied-Bounded a.reply (unpark e) a.noted n again h)
  | inr gone ↦ rw gone (tt, omega arith)
]

attempt-Bounded :
    (a : Attempt) (g : Governor) (n : ℕ) (again : Governor → Gated)
    → ((h : Governor) → Bounded n (again h).events)
    → Bounded (suc n) (attempt a g again).events
unfolding attempt governed
attempt-Bounded a g n again h = elim (Bool-cases a.limited) [
  | inl there ↦
      rw (attempt, there) (governed-Bounded a (a.others g) (allow (a.others g) a.asked) n again h)
  | inr gone ↦ rw (attempt, gone) (tt, omega arith)
]

gate_from-Bounded :
    (script : ℕ → Attempt) (left k : ℕ) (g : Governor)
    → Bounded left (gate_from script left k g).events
unfolding gate_from
gate_from-Bounded script zero k g = (tt, omega arith)
gate_from-Bounded script (suc left) k g =
    attempt-Bounded (script k) g left (λ h. gate_from script left (suc k) h)
      (λ h. gate_from-Bounded script left (suc k) h)

-- A gate ends with at most one request more than the retries that the budget allows, none if it is
-- negative. Every request runs under the limiter, which is released before the next attempt and at
-- the end, whatever the clocks, the contexts, the other callers and the provider do.
pub gate-Bounded :
    (max_retries : ℤ) (script : ℕ → Attempt) (g : Governor)
    → Bounded (attempts max_retries) (gate max_retries script g).events
unfolding gate
gate-Bounded max_retries script g = gate_from-Bounded script (attempts max_retries) 0 g

attempt-failed :
    (a : Attempt) (g h : Governor) (again : Governor → Gated)
    → a.limited ≡ true
    → allow (a.others g) a.asked ≡ admitted h
    → a.reply ≡ failed
    → attempt a g again ≡ retried (again (note_error h a.noted))
unfolding attempt governed replied
attempt-failed a g h again there in_time bad =
    rw (attempt, there, in_time, governed, bad, replied) refl

attempt-busy :
    (a : Attempt) (g : Governor) (n : ℕ) (again : Governor → Gated)
    → a.limited ≡ true
    → allow (a.others g) a.asked ≡ degraded n
    → attempt a g again ≡ gated (busy n) (a.others g) (acquires ∷ releases ∷ [])
unfolding attempt governed
attempt-busy a g n again there refused = rw (attempt, there, refused, governed) refl

-- A retry that asks the governor before the back-off of its own first error is over is refused as
-- busy, so that the request ran once, however many retries the budget allows.
pub gate_once :
    (retries : ℕ) (script : ℕ → Attempt) (g h : Governor)
    → (script 0).limited ≡ true
    → allow ((script 0).others g) (script 0).asked ≡ admitted h
    → (script 0).reply ≡ failed
    → (script 1).limited ≡ true
    → (script 1).others (note_error h (script 0).noted) ≡ note_error h (script 0).noted
    → (script 1).asked < (script 0).noted + delay h.base h.max (suc h.fails)
    → ((gate (pos (suc retries)) script g).result ≡ busy h.waiters)
      × (count is_call (gate (pos (suc retries)) script g).events ≡ 1)
unfolding gate gate_from
gate_once retries script g h there in_time bad back alone soon =
    let a = script 0 in
    let b = script 1 in
    let refused : allow (b.others (note_error h a.noted)) b.asked ≡ degraded h.waiters =
      ap (λ e. allow e b.asked) alone ∙ allow-soon h a.noted b.asked soon in
    let last = λ (e : Governor). gate_from script retries 2 e in
    let whole : gate (pos (suc retries)) script g
        ≡ retried
            (gated (busy h.waiters) (b.others (note_error h a.noted)) (acquires ∷ releases ∷ [])) =
      attempt-failed a g h (λ e. attempt b e last) there in_time bad
      ∙ ap retried (attempt-busy b (note_error h a.noted) h.waiters last back refused) in
    rw whole (refl, refl)
