-- ===== src/Enrichment/Order.antt =====
-- core/internal/enrichment/queue.go: an entry waits once, and entries leave as they came.
use abcmovies.Base.{
  ℕ, ◌≡◌, refl, sym, ap, ◌∙◌, true, false, List, [], ◌∷◌, ◌++◌, Text, ◌==◌, if◌then◌else◌, none,
  some, contains, arith, Bool-cases, inl, inr, zero, suc, length, ◌+◌,
}
use abcmovies.Enrichment.Queue.{
  Queue, new_queue, enqueue, forget, try_next, Use, enqueues, takes, use_queue,
}

-- No id stands twice.
abbrev pub Once : List Text → Type 0
Once [] = Unit
Once (s ∷ l) = (contains l s ≡ false) × Once l

-- The set holds what waits and nothing else, and nothing waits twice.
pub IsSound : Queue → Type 0
IsSound q = Once q.pending × ((id : Text) → contains q.seen id ≡ contains q.pending id)

contains-append :
    (l : List Text) (s id : Text)
    → contains (l ++ (s ∷ [])) id ≡ (if s == id then true else contains l id)
unfolding contains
contains-append [] s id = ground arith
contains-append (x ∷ l) s id = ground (arith, contains-append l s id)

append-Once : (l : List Text) (s : Text) → Once l → contains l s ≡ false → Once (l ++ (s ∷ []))
unfolding contains
append-Once [] s o h = (refl, tt)
append-Once (x ∷ l) s o h =
    (ground (arith, contains-append l s x), append-Once l s o.1 (ground arith))

pub contains-forget :
    (id j : Text) (l : List Text)
    → contains (forget id l) j ≡ (if id == j then false else contains l j)
unfolding contains forget
contains-forget id j [] = ground arith
contains-forget id j (s ∷ l) = ground (arith, contains-forget id j l)

IsSound-enqueue : (q : Queue) (id : Text) → IsSound q → IsSound (enqueue q id)
unfolding IsSound enqueue contains
IsSound-enqueue q id (once, same) = elim (Bool-cases (contains q.seen id)) [
  | inl waits ↦ rw waits (once, same)
  | inr new ↦ rw new (
    append-Once q.pending id once (sym (same id) ∙ new),
    λ j. ground (arith, same j, contains-append q.pending id j),
  )
]

IsSound-next :
    (pending seen : List Text)
    → IsSound (record { pending = pending; seen = seen })
    → IsSound (try_next (record { pending = pending; seen = seen })).0
unfolding IsSound try_next contains
IsSound-next [] seen sound = sound
IsSound-next (id ∷ rest) seen (once, same) =
    (once.1, λ j. ground (arith, once.0, same j, contains-forget id j seen))

IsSound-try_next : (q : Queue) → IsSound q → IsSound (try_next q).0
IsSound-try_next q sound = IsSound-next q.pending q.seen sound

IsSound-use_queue : (uses : List Use) (q : Queue) → IsSound q → IsSound (use_queue q uses)
unfolding use_queue
IsSound-use_queue [] q sound = sound
IsSound-use_queue (enqueues id ∷ uses) q sound =
    IsSound-use_queue uses (enqueue q id) (IsSound-enqueue q id sound)
IsSound-use_queue (takes ∷ uses) q sound =
    IsSound-use_queue uses (try_next q).0 (IsSound-try_next q sound)

-- Whatever is enqueued and taken from a new queue, in whatever order, no entry waits twice and the
-- set of seen ids is the set of waiting ones.
pub IsSound-use_new_queue : (uses : List Use) → IsSound (use_queue new_queue uses)
unfolding IsSound new_queue
IsSound-use_new_queue uses = IsSound-use_queue uses new_queue (tt, λ id. refl)

-- The ids that `n` takes give, in order.
abbrev pub drained : ℕ → Queue → List Text
drained zero q = []
drained (suc n) q =
    let (q', taken) = try_next q in elim taken [ none ↦ [] | some id ↦ id ∷ drained n q' ]

drained-length :
    (pending seen : List Text)
    → drained (length pending) (record { pending = pending; seen = seen }) ≡ pending
unfolding try_next
drained-length [] seen = refl
drained-length (id ∷ rest) seen = ap (λ l. id ∷ l) (drained-length rest (forget id seen))

length-append : (l : List Text) (s : Text) → length (l ++ (s ∷ [])) ≡ length l + 1
length-append [] s = omega arith
length-append (x ∷ l) s = omega (arith, length-append l s)

-- A sound queue in which an id does not wait gives, once the id is enqueued, its entries in the
-- order in which they came, and that id last.
pub drained-enqueue :
    (q : Queue) (id : Text)
    → IsSound q
    → contains q.pending id ≡ false
    → drained (length q.pending + 1) (enqueue q id) ≡ q.pending ++ (id ∷ [])
unfolding IsSound enqueue
drained-enqueue q id (once, same) new =
    rw (same id ∙ new, sym (length-append q.pending id))
      (drained-length (q.pending ++ (id ∷ [])) (id ∷ q.seen))
