-- ===== src/Tests/Scheduler.antt =====
-- Concrete jobs for the theorems on core/internal/scheduler.
use abcmovies.Base.{
  ℕ, ◌/◌, ◌+◌, ◌≤◌, ◌≡◌, refl, text, Text-discrete, true, false, lookup, insert, delete, arith,
}
use abcmovies.Scheduler.Waits.{
  jittered, shifted_base, bounded_backoff, backoff, min_wait, after_run, IsTenth, after_run-bounds,
}
use abcmovies.Scheduler.Workers.{
  Job, Scheduler, new_scheduler, start_job, register_job, cancel, drop_job, remove_job, begin_run,
  start_next,
}
use abcmovies.Scheduler.Removal.{fresh, registers, begins, works, Reaches-remove_job}

program : Unit {0}
unfolding Text-discrete lookup insert delete new_scheduler start_job register_job cancel drop_job
    remove_job begin_run start_next
program = tt

abbrev tenth : ℕ → ℕ
tenth d = d / 10

tenth-IsTenth : IsTenth tenth
tenth-IsTenth d = omega arith

third_failure : backoff tenth 24000000000 3 ≡ 240000000000
unfolding backoff bounded_backoff jittered shifted_base
third_failure = refl

after_run-bounds_example :
    (◌≡◌ {A = ℕ} 3 3)
    × (min_wait ≤ backoff tenth 7 3 + 100000001)
    × (backoff tenth 7 3 ≤ 95040000000001)
    × (◌≡◌ {A = ℕ} 0 0)
unfolding after_run
after_run-bounds_example = after_run-bounds tenth 60 7 2 tenth-IsTenth

abbrev sync : Job
sync = record { name = text "sync"; cadence = 60 }

abbrev on : Scheduler
on = register_job (begin_run new_scheduler) sync

on-works : works (text "sync") on ≡ true
unfolding program
on-works = refl

-- A name that is registered twice keeps one worker after a removal.
twice-works : works (text "sync") (remove_job (register_job on sync) (text "sync")) ≡ true
unfolding program
twice-works = refl

Reaches-remove_job_example : works (text "sync") (remove_job on (text "sync")) ≡ false
unfolding program
Reaches-remove_job_example =
    Reaches-remove_job on (text "sync")
      (registers (begin_run new_scheduler) sync (begins new_scheduler fresh) refl)
