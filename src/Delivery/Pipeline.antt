-- ===== src/Delivery/Pipeline.antt =====
-- core/internal/delivery/pipeline.go: the step chain of a session, and the gate that declines what
-- this version cannot run.
use abcmovies.Base.{
  Bool, true, false, List, [], ◌∷◌, Text, ◌==◌, if◌then◌else◌, Option, none, some, ◌≡◌, arith,
}
use abcmovies.Delivery.Manifest.{MediaSource, Addressable}

pub data Goal : Type 0 where
  play download : Goal
  other : Text → Goal

pub data StepKind : Type 0 where
  passthrough decrypt remux transcode compose record_live : StepKind

-- A step and the container of its parameters, which is all that `SelectPipeline` sets.
pub record Step : Type 0 where
  pub kind : StepKind
  pub container : Option Text

abbrev pub Plan : Type 0
Plan = List Step

abbrev plan_step : StepKind → Option Text → Step
plan_step kind container = record { kind = kind; container = container }

is_per_track : Addressable → Bool
is_per_track Addressable.per_track = true
is_per_track a = false

-- `SelectPipeline` on a manifest that is not nil; `none` is its error.
unfoldable pub select_pipeline : Goal → MediaSource → Text → Option Plan
unfolding is_per_track
select_pipeline Goal.play src container =
    if is_per_track src.addressable
    then some (plan_step StepKind.passthrough none ∷ [])
    else if container == []
    then some (plan_step StepKind.passthrough none ∷ [])
    else some (plan_step StepKind.remux (some container) ∷ [])
select_pipeline Goal.download src container =
    if is_per_track src.addressable
    then none
    else some (
        plan_step StepKind.remux (some container)
        ∷ plan_step StepKind.compose (some container)
        ∷ [])
select_pipeline (Goal.other g) src container = none

-- `executableKinds[k]`
unfoldable pub executable : StepKind → Bool
executable StepKind.passthrough = true
executable StepKind.remux = true
executable StepKind.compose = true
executable k = false

all_executable : Plan → Bool
unfolding executable
all_executable [] = true
all_executable (s ∷ steps) = if executable s.kind then all_executable steps else false

-- `ValidatePlan(p) == nil`
unfoldable pub validate_plan : Plan → Bool
unfolding all_executable
validate_plan [] = false
validate_plan (s ∷ steps) = all_executable (s ∷ steps)

-- Every plan that is selected passes the gate, so a session is never refused for its plan.
pub select-validate_plan :
    (goal : Goal) (src : MediaSource) (container : Text) (plan : Plan)
    → select_pipeline goal src container ≡ some plan
    → validate_plan plan ≡ true
unfolding select_pipeline validate_plan
select-validate_plan Goal.play src container plan e = ground arith
select-validate_plan Goal.download src container plan e = ground arith
select-validate_plan (Goal.other g) src container plan e = cc
