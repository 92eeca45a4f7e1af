-- ===== src/Enrichment/Draining.antt =====
-- core/internal/enrichment/worker.go: a drain ends and loses no entry.
use abcmovies.Base.{
  ℕ, zero, suc, ◌+◌, ◌<◌, ◌≡◌, refl, ap, Bool, false, List, [], ◌∷◌, ◌++◌, Text, Option, some, ◌⊎◌,
  inl, inr, length, Bool-cases, arith,
}
use abcmovies.Enrichment.Queue.{Queue, enqueue, forget, try_next, backlog}
use abcmovies.Enrichment.Order.{contains-forget}
use abcmovies.Enrichment.Worker.{round, drain}

module _ {S : Type 0} (enrich : S → Text → S) (cancelled : ℕ → Bool) where
  -- The state after the callback has seen some entries, in order.
  abbrev pub visit : S → List Text → S
  visit s [] = s
  visit s (id ∷ ids) = visit (enrich s id) ids

  -- What a drain leaves: the entries that it visited come first, the rest waits, and where the
  -- context was cancelled the next one may have moved to the end.
  pub record Drained (pending : List Text) (s : S) (result : Option (Queue × S)) : Type 0 where
    pub visited : List Text
    pub rest : List Text
    pub left : Queue
    pub returned : result ≡ some (left, visit s visited)
    pub split : pending ≡ visited ++ rest
    pub waiting :
        (left.pending ≡ rest)
        ⊎ ((id : Text) × (later : List Text) × (rest ≡ id ∷ later)
            × (left.pending ≡ later ++ (id ∷ [])))
    pub all : ((n : ℕ) → cancelled n ≡ false) → rest ≡ []

  enqueue-pending :
      (rest seen : List Text) (id : Text)
      → (enqueue (record { pending = rest; seen = forget id seen }) id).pending ≡ rest ++ (id ∷ [])
  unfolding enqueue
  enqueue-pending rest seen id = ground (arith, contains-forget id id seen)

  drain_next :
      (fuel asked : ℕ) (id : Text) (rest seen : List Text) (s : S)
      → Drained rest (enrich s id) (
          drain enrich cancelled fuel
            (record { pending = rest; seen = forget id seen })
            (enrich s id)
            (asked + 2))
      → Drained
          (id ∷ rest)
          s
          (drain enrich cancelled (suc fuel) (record { pending = id ∷ rest; seen = seen }) s asked)
  unfolding drain try_next round
  drain_next fuel asked id rest seen s d = elim (Bool-cases (cancelled asked)) [
    | inl stop ↦ record {
      visited = [];
      rest = id ∷ rest;
      left = enqueue (record { pending = rest; seen = forget id seen }) id;
      returned = ground (arith, stop);
      split = refl;
      waiting = inr (id, rest, refl, enqueue-pending rest seen id);
      all = λ never. absurd (ground (arith, never asked, stop));
    }
    | inr go ↦ elim (Bool-cases (cancelled (asked + 1))) [
      | inl stop ↦ record {
        visited = id ∷ [];
        rest = rest;
        left = record { pending = rest; seen = forget id seen };
        returned = ground (arith, go, stop);
        split = refl;
        waiting = inl refl;
        all = λ never. absurd (ground (arith, never (asked + 1), stop));
      }
      | inr on ↦ record {
        visited = id ∷ d.visited;
        rest = d.rest;
        left = d.left;
        returned = ground (arith, go, on, d.returned);
        split = ap (λ l. id ∷ l) d.split;
        waiting = d.waiting;
        all = d.all;
      }
    ]
  ]

  drain-Drained_list :
      (fuel asked : ℕ) (pending seen : List Text) (s : S)
      → length pending < fuel
      → Drained pending s
          (drain enrich cancelled fuel (record { pending = pending; seen = seen }) s asked)
  unfolding drain try_next
  drain-Drained_list zero asked pending seen s h = absurd (omega arith)
  drain-Drained_list (suc fuel) asked [] seen s h = record {
    visited = [];
    rest = [];
    left = record { pending = []; seen = seen };
    returned = refl;
    split = refl;
    waiting = inl refl;
    all = λ never. refl;
  }
  drain-Drained_list (suc fuel) asked (id ∷ rest) seen s h =
      drain_next fuel asked id rest seen s
        (drain-Drained_list fuel (asked + 2) rest (forget id seen) (enrich s id) (omega arith))

  -- A drain ends after at most one round more than entries wait. It has then visited a first part of
  -- them, each once and in their order, and the others still wait; without a cancellation all were
  -- visited.
  pub drain-Drained :
      (q : Queue) (s : S) (fuel asked : ℕ)
      → backlog q < fuel
      → Drained q.pending s (drain enrich cancelled fuel q s asked)
  drain-Drained q s fuel asked h = drain-Drained_list fuel asked q.pending q.seen s h
