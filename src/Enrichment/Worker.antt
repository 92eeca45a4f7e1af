-- ===== src/Enrichment/Worker.antt =====
-- core/internal/enrichment/worker.go and cadence.go: the drain of the queue, and how often it runs. What
-- others enqueue while a drain runs is left out.
use abcmovies.Base.{ℕ, zero, suc, ◌+◌, Bool, Text, blank, if◌then◌else◌, Option, none, some, ltb}
use abcmovies.Enrichment.Queue.{Queue, enqueue, try_next}

-- The queue and what the callback changes, and what the context says when it is asked the n-th time.
module _ {S : Type 0} (enrich : S → Text → S) (cancelled : ℕ → Bool) where
  -- One round with the entry that was taken; `again` is what the next round does.
  unfoldable pub round : Queue → Text → S → ℕ → Option (Queue × S) → Option (Queue × S)
  round q id s asked again =
      if cancelled asked
      then some (enqueue q id, s)
      else if cancelled (asked + 1)
      then some (q, enrich s id)
      else again

  -- `drain`, with an error of the callback logged; without fuel it has not returned.
  unfoldable pub drain : ℕ → Queue → S → ℕ → Option (Queue × S)
  drain zero q s asked = none
  drain (suc fuel) q s asked =
      let (rest, taken) = try_next q in
      elim taken [
        | none ↦ some (rest, s)
        | some id ↦ round rest id s asked (drain fuel rest (enrich s id) (asked + 2))
      ]

-- 15 minutes, in nanoseconds.
abbrev pub default_drain_cadence : ℕ
default_drain_cadence = 900000000000

-- `DrainCadence`; `parse_duration` is `time.ParseDuration` on the durations that are not negative.
unfoldable pub drain_cadence : (Text → Option ℕ) → Text → Option ℕ
drain_cadence parse_duration configured =
    if blank configured then some default_drain_cadence else elim (parse_duration configured) [
      | none ↦ none
      | some d ↦ if ltb 0 d then some d else none
    ]
