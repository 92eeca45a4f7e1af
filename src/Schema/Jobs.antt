-- ===== src/Schema/Jobs.antt =====
-- `ValidateJob` of core/internal/schema/schema.go. A wire enum is its number, a pointer is an option, and
-- what the checks do not read is left out of the messages.
use abcmovies.Base.{
  ℕ, Bool, true, false, not, ◌&&◌, ◌||◌, Text, eqb, ltb, blank, if◌then◌else◌, Option, none, some,
}

pub record DeliveryContext : Type 0 where
  pub provider : Text
  pub account_id : Text
  pub member_user_id : Text

pub record PassthroughPrompt : Type 0 where
  pub adapter : Text
  pub descriptor : Text

-- The oneof `kind` of an awaited action.
pub data ActionKind : Type 0 where
  no_kind : ActionKind
  common : ℕ → ActionKind
  passthrough : PassthroughPrompt → ActionKind

pub record AwaitingAction : Type 0 where
  pub kind : ActionKind
  pub actor_user_id : Text

pub record Job : Type 0 where
  pub id : Text
  pub kind : ℕ
  pub status : ℕ
  -- the percentage of `progress`
  pub progress : Option ℕ
  pub owner_user_id : Text
  pub delivery : Option DeliveryContext
  pub awaiting_action : Option AwaitingAction
  pub error : Text

abbrev pub kind_delivery : ℕ
kind_delivery = 1

abbrev pub status_queued : ℕ
status_queued = 1

abbrev pub status_running : ℕ
status_running = 2

abbrev pub status_awaiting_action : ℕ
status_awaiting_action = 3

abbrev pub status_done : ℕ
status_done = 4

abbrev pub status_failed : ℕ
status_failed = 5

abbrev pub status_cancelled : ℕ
status_cancelled = 6

unfoldable pub validate_delivery_context : Option DeliveryContext → Bool
validate_delivery_context none = false
validate_delivery_context (some d) =
    not (blank d.provider || (blank d.account_id || blank d.member_user_id))

-- The getters of an action kind that is not set read 0 and nil.
unfoldable pub validate_awaiting_action : Option AwaitingAction → Bool
validate_awaiting_action none = false
validate_awaiting_action (some a) = not (blank a.actor_user_id) && elim a.kind [
  | no_kind ↦ false
  | common action ↦ not (eqb action 0)
  | passthrough p ↦ not (blank p.adapter || blank p.descriptor)
]

abbrev pub at_most_100 : Option ℕ → Bool
at_most_100 none = true
at_most_100 (some percent) = not (ltb 100 percent)

unfoldable pub validate_job : Option Job → Bool
validate_job none = false
validate_job (some job) =
    if blank job.id || (eqb job.kind 0 || (eqb job.status 0 || blank job.owner_user_id))
    then false
    else if not (at_most_100 job.progress)
    then false
    else if eqb job.kind kind_delivery && not (validate_delivery_context job.delivery)
    then false
    else if eqb job.status status_awaiting_action
        && not (validate_awaiting_action job.awaiting_action)
    then false
    else not (eqb job.status status_failed && blank job.error)
