-- ===== src/Scheduler/Workers.antt =====
-- The state of core/internal/scheduler/scheduler.go: registered jobs, and a worker for each that was started.
-- What holds the lock is one step.
use abcmovies.Base.{
  ℕ, suc, Bool, true, false, List, [], ◌∷◌, ◌++◌, Text, ◌==◌, eqb, if◌then◌else◌, none, some,
  text_key, insert, delete, lookup,
}

pub record Job : Type 0 where
  pub name : Text
  pub cadence : ℕ

-- `starting` are the copies that `Run` has yet to start; `live` are the workers that were not cancelled,
-- each with the number of its context and the name of its job.
pub record Scheduler : Type 0 where
  pub jobs : List Job
  pub started : Bool
  pub starting : List Job
  pub running : List (Text × ℕ)
  pub live : List (ℕ × Text)
  pub contexts : ℕ

unfoldable pub new_scheduler : Scheduler
new_scheduler = record {
  jobs = [];
  started = false;
  starting = [];
  running = [];
  live = [];
  contexts = 0;
}

unfoldable pub start_job : Scheduler → Job → Scheduler
start_job s j = record s {
  running = insert j.name s.contexts s.running;
  live = (s.contexts, j.name) ∷ s.live;
  contexts = suc s.contexts;
}

unfoldable pub register_job : Scheduler → Job → Scheduler
register_job s j =
    let added : Scheduler = record s { jobs = s.jobs ++ (j ∷ []) } in
    if s.started then start_job added j else added

-- A cancel ends the worker of its context. A run that is under way may still end; it is not counted as
-- a worker.
unfoldable pub cancel : ℕ → List (ℕ × Text) → List (ℕ × Text)
cancel n [] = []
cancel n ((w, name) ∷ live) = if eqb w n then cancel n live else (w, name) ∷ cancel n live

-- The first job of a name goes.
unfoldable pub drop_job : Text → List Job → List Job
drop_job name [] = []
drop_job name (j ∷ jobs) =
    let rest = drop_job name jobs in if j.name == name then jobs else j ∷ rest

unfoldable pub remove_job : Scheduler → Text → Scheduler
remove_job s name = elim (lookup name s.running) [
  | none ↦ record s { jobs = drop_job name s.jobs }
  | some n ↦ record s {
    running = delete name s.running;
    live = cancel n s.live;
    jobs = drop_job name s.jobs;
  }
]

-- `Run` up to its loop, and one round of the loop.
unfoldable pub begin_run : Scheduler → Scheduler
begin_run s = record s { started = true; starting = s.jobs }

unfoldable pub start_next : Scheduler → Scheduler
start_next s = elim s.starting [ [] ↦ s | j ∷ rest ↦ start_job (record s { starting = rest }) j ]
