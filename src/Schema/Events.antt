-- ===== src/Schema/Events.antt =====
-- `ValidateEventEnvelope` of core/internal/schema/schema.go. A wire enum is its number, and what the
-- checks do not read is left out of the messages.
use abcmovies.Base.{
  ℕ, Bool, true, false, not, ◌||◌, Text, eqb, blank, if◌then◌else◌, Option, none, some,
}

-- The oneof `payload`.
pub data Payload : Type 0 where
  no_payload : Payload
  -- the job's id and status
  job_status : Text → ℕ → Payload
  -- provider, provider id and entry id
  merge_conflict : Text → Text → Text → Payload
  -- the providers from and to which a session went
  provider_switched : Text → Text → Payload
  -- account and provider
  account_session : Text → Text → Payload
  -- account, provider and entry
  availability : Text → Text → Text → Payload
  play_menu_ready : Text → Payload

pub record EventEnvelope : Type 0 where
  pub id : Text
  pub event_type : ℕ
  pub audience : ℕ
  pub user_id : Text
  pub account_id : Text
  pub payload : Payload

abbrev pub audience_user : ℕ
audience_user = 1

abbrev pub audience_owner : ℕ
audience_owner = 2

abbrev pub audience_account : ℕ
audience_account = 3

abbrev pub type_job_status : ℕ
type_job_status = 1

abbrev pub type_merge_conflict : ℕ
type_merge_conflict = 2

abbrev pub type_provider_switched : ℕ
type_provider_switched = 3

abbrev pub type_account_session_linked : ℕ
type_account_session_linked = 4

abbrev pub type_account_session_expired : ℕ
type_account_session_expired = 5

abbrev pub type_account_session_revoked : ℕ
type_account_session_revoked = 6

abbrev pub type_availability_changed : ℕ
type_availability_changed = 7

-- The payload checks of one type each.
abbrev pub is_job_status : Payload → Bool
is_job_status (job_status job_id status) = not (blank job_id || eqb status 0)
is_job_status other = false

abbrev pub is_merge_conflict : Payload → Bool
is_merge_conflict (merge_conflict provider provider_id entry_id) =
    not (blank provider || (blank provider_id || blank entry_id))
is_merge_conflict other = false

abbrev pub is_provider_switched : Payload → Bool
is_provider_switched (provider_switched from_provider to_provider) =
    not (blank from_provider || blank to_provider)
is_provider_switched other = false

abbrev pub is_account_session : Payload → Bool
is_account_session (account_session account_id provider) = not (blank account_id || blank provider)
is_account_session other = false

abbrev pub is_availability : Payload → Bool
is_availability (availability account_id provider entry_id) =
    not (blank account_id || (blank provider || blank entry_id))
is_availability other = false

-- The switch on the audience.
unfoldable pub addressed : EventEnvelope → Bool
addressed e =
    if eqb e.audience audience_user || eqb e.audience audience_owner
    then not (blank e.user_id)
    else if eqb e.audience audience_account
    then not (blank e.account_id)
    else true

-- The switch on the type.
unfoldable pub carries_payload : ℕ → Payload → Bool
carries_payload t p =
    if eqb t type_job_status
    then is_job_status p
    else if eqb t type_merge_conflict
    then is_merge_conflict p
    else if eqb t type_provider_switched
    then is_provider_switched p
    else if eqb t type_account_session_linked
        || (eqb t type_account_session_expired || eqb t type_account_session_revoked)
    then is_account_session p
    else if eqb t type_availability_changed
    then is_availability p
    else true

unfoldable pub validate_event_envelope : Option EventEnvelope → Bool
validate_event_envelope none = false
validate_event_envelope (some e) =
    if blank e.id || (eqb e.event_type 0 || eqb e.audience 0)
    then false
    else if not (addressed e)
    then false
    else carries_payload e.event_type e.payload
