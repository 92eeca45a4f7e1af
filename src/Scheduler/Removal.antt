-- ===== src/Scheduler/Removal.antt =====
-- core/internal/scheduler/scheduler.go: whether a removed job still has a worker.
use abcmovies.Base.{
  ℕ, suc, ◌<◌, ◌≡◌, ◌≢◌, refl, sym, ap, ◌∙◌, Bool, true, false, List, [], ◌∷◌, ◌++◌, Text,
  Text-discrete, ◌==◌, eqb, none, some, text_key, insert, delete, lookup, lookup-insert,
  lookup-delete, any, All, Option-cases, Bool-cases, inl, inr, arith,
}
use abcmovies.Scheduler.Workers.{
  Job, Scheduler, new_scheduler, start_job, register_job, cancel, remove_job, begin_run, start_next,
}

-- A worker for a job of this name is live.
abbrev pub works : Text → Scheduler → Bool
works name s = any (λ w. w.1 == name) s.live

-- Each live worker is the one that `running` knows under its name, and its context is not new.
pub IsSettled : Scheduler → Type 0
IsSettled s = All (λ w. (lookup w.1 s.running ≡ some w.0) × (w.0 < s.contexts)) s.live

cancel-works :
    (name : Text) (n : ℕ) (running : List (Text × ℕ)) (contexts : ℕ) (live : List (ℕ × Text))
    → lookup name running ≡ some n
    → All (λ w. (lookup w.1 running ≡ some w.0) × (w.0 < contexts)) live
    → any (λ w. w.1 == name) (cancel n live) ≡ false
unfolding cancel
cancel-works name n running contexts [] e all = refl
cancel-works name n running contexts ((w, other) ∷ live) e all = elim (Text-discrete other name) [
  | yes same ↦
      let here : lookup name running ≡ some w = ap (λ k. lookup k running) (sym same) ∙ all.0.0 in
      let hit : w ≡ n = ground (arith, here, e) in
      ground (arith, hit, cancel-works name n running contexts live e all.1)
  | no different ↦ ground (arith, different, cancel-works name n running contexts live e all.1)
]

idle :
    (name : Text) (running : List (Text × ℕ)) (contexts : ℕ) (live : List (ℕ × Text))
    → lookup name running ≡ none
    → All (λ w. (lookup w.1 running ≡ some w.0) × (w.0 < contexts)) live
    → any (λ w. w.1 == name) live ≡ false
idle name running contexts [] e all = refl
idle name running contexts ((w, other) ∷ live) e all = elim (Text-discrete other name) [
  | yes same ↦
      let here : lookup name running ≡ some w = ap (λ k. lookup k running) (sym same) ∙ all.0.0 in
      absurd (ground (arith, here, e))
  | no different ↦ ground (arith, different, idle name running contexts live e all.1)
]

-- On a settled scheduler a removal leaves no worker of that name.
remove_job-works :
    (s : Scheduler) (name : Text) → IsSettled s → works name (remove_job s name) ≡ false
unfolding IsSettled remove_job
remove_job-works s name settled = elim (Option-cases (lookup name s.running)) [
  | inl e ↦ rw (remove_job, e) (idle name s.running s.contexts s.live e settled)
  | inr (n, e) ↦ rw (remove_job, e) (cancel-works name n s.running s.contexts s.live e settled)
]

start_job-All :
    (name : Text) (n contexts : ℕ) (running : List (Text × ℕ)) (live : List (ℕ × Text))
    → lookup name running ≡ none
    → All (λ w. (lookup w.1 running ≡ some w.0) × (w.0 < contexts)) live
    → All (λ w. (lookup w.1 (insert name n running) ≡ some w.0) × (w.0 < suc contexts)) live
start_job-All name n contexts running [] free all = tt
start_job-All name n contexts running ((w, other) ∷ live) free all =
    let rest = start_job-All name n contexts running live free all.1 in
    elim (Text-discrete name other) [
      | yes same ↦
          let here : lookup name running ≡ some w = ap (λ k. lookup k running) same ∙ all.0.0 in
          absurd (ground (arith, here, free))
      | no different ↦ (
        (
          ground (arith, different, all.0.0, lookup-insert name other n running),
          omega (arith, all.0.1),
        ),
        rest,
      )
    ]

-- A job whose name has no worker is started.
start_job-IsSettled :
    (s : Scheduler) (j : Job)
    → IsSettled s
    → lookup j.name s.running ≡ none
    → IsSettled (start_job s j)
unfolding IsSettled start_job
start_job-IsSettled s j settled free = (
  (ground (arith, lookup-insert j.name j.name s.contexts s.running), omega arith),
  start_job-All j.name s.contexts s.contexts s.running s.live free settled,
)

cancel-All :
    (name : Text) (n contexts : ℕ) (running : List (Text × ℕ)) (live : List (ℕ × Text))
    → lookup name running ≡ some n
    → All (λ w. (lookup w.1 running ≡ some w.0) × (w.0 < contexts)) live
    → All (λ w. (lookup w.1 (delete name running) ≡ some w.0) × (w.0 < contexts)) (cancel n live)
unfolding cancel
cancel-All name n contexts running [] e all = tt
cancel-All name n contexts running ((w, other) ∷ live) e all = elim (Bool-cases (eqb w n)) [
  | inl gone ↦ rw gone (cancel-All name n contexts running live e all.1)
  | inr stays ↦
      let apart : name ≢ other = λ (same : name ≡ other).
        ground (arith, stays, e, ap (λ k. lookup k running) same ∙ all.0.0) in
      rw stays (
        (ground (arith, apart, all.0.0, lookup-delete name other running), all.0.1),
        cancel-All name n contexts running live e all.1,
      )
]

remove_job-IsSettled : (s : Scheduler) (name : Text) → IsSettled s → IsSettled (remove_job s name)
unfolding IsSettled remove_job
remove_job-IsSettled s name settled = elim (Option-cases (lookup name s.running)) [
  | inl e ↦ rw (remove_job, e) settled
  | inr (n, e) ↦ rw (remove_job, e) (cancel-All name n s.contexts s.running s.live e settled)
]

-- The schedulers that calls lead to, where no job is registered or started under a name that has a
-- worker.
pub data Reaches : Scheduler → Type 0 where
  fresh : Reaches new_scheduler
  registers :
      (s : Scheduler) (j : Job)
      → Reaches s
      → lookup j.name s.running ≡ none
      → Reaches (register_job s j)
  removes : (s : Scheduler) (name : Text) → Reaches s → Reaches (remove_job s name)
  begins : (s : Scheduler) → Reaches s → Reaches (begin_run s)
  starts :
      (s : Scheduler) (j : Job) (rest : List Job)
      → Reaches s
      → s.starting ≡ j ∷ rest
      → lookup j.name s.running ≡ none
      → Reaches (start_next s)

register_job-IsSettled :
    (s : Scheduler) (j : Job)
    → IsSettled s
    → lookup j.name s.running ≡ none
    → IsSettled (register_job s j)
unfolding register_job IsSettled
register_job-IsSettled s j settled free = elim (Bool-cases s.started) [
  | inl on ↦
      rw (register_job, on)
        (start_job-IsSettled (record s { started = true; jobs = s.jobs ++ (j ∷ []) }) j settled
          free)
  | inr off ↦ rw (register_job, off) settled
]

start_next-IsSettled :
    (s : Scheduler) (j : Job) (rest : List Job)
    → IsSettled s
    → s.starting ≡ j ∷ rest
    → lookup j.name s.running ≡ none
    → IsSettled (start_next s)
unfolding start_next IsSettled
start_next-IsSettled s j rest settled e free =
    rw (start_next, e) (start_job-IsSettled (record s { starting = rest }) j settled free)

Reaches-IsSettled : (s : Scheduler) → Reaches s → IsSettled s
unfolding new_scheduler begin_run IsSettled
Reaches-IsSettled _ fresh = tt
Reaches-IsSettled _ (registers s j r free) = register_job-IsSettled s j (Reaches-IsSettled s r) free
Reaches-IsSettled _ (removes s name r) = remove_job-IsSettled s name (Reaches-IsSettled s r)
Reaches-IsSettled _ (begins s r) = Reaches-IsSettled s r
Reaches-IsSettled _ (starts s j rest r e free) =
    start_next-IsSettled s j rest (Reaches-IsSettled s r) e free

-- However jobs were registered, removed and started before, as long as none was registered or
-- started under a name that had a worker, no worker of a removed name is left.
pub Reaches-remove_job :
    (s : Scheduler) (name : Text) → Reaches s → works name (remove_job s name) ≡ false
Reaches-remove_job s name r = remove_job-works s name (Reaches-IsSettled s r)

-- A job that is removed after `Run` has copied it and before `Run` has started it gets a worker all
-- the same.
pub start_next-remove_job :
    (s : Scheduler) (j : Job) (rest : List Job)
    → s.starting ≡ j ∷ rest
    → lookup j.name s.running ≡ none
    → works j.name (start_next (remove_job s j.name)) ≡ true
unfolding start_next remove_job start_job
start_next-remove_job s j rest e free = rw (remove_job, free, e) (ground arith)
