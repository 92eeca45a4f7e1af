-- ===== src/Delivery/Session.antt =====
-- The sessions and the engine's state in core/internal/delivery/delivery.go. Every method that takes
-- the engine's lock is one step; a time is a number of nanoseconds.
use abcmovies.Base.{
  ◌≡◌, arith, decimal-injective, ℕ, Bool, true, false, List, [], ◌∷◌, ◌++◌, Text, text, ◌==◌,
  if◌then◌else◌, Option, none, some, Key, lookup, insert, decimal, text_key, Text-discrete,
  count_values,
}
use abcmovies.Policy.Limits.{Set}
use abcmovies.Delivery.Manifest.{Track}
use abcmovies.Delivery.Pipeline.{Goal, Plan}

pub data Status : Type 0 where
  queued running done failed cancelled revoked : Status

-- `corev1.DeliveryContext`
pub record Context : Type 0 where
  pub provider : Text
  pub account_id : Text
  pub member_user_id : Text
  pub sink : Text
  pub selected_target : Text
  pub container : Text
  pub policy : Set
  pub provider_cap : Set

pub record Session : Type 0 where
  pub id : Text
  pub goal : Goal
  pub context : Context
  pub status : Status
  pub error : Text
  pub plan : Plan
  pub menu : List Track
  -- `s.Sink != nil`
  pub has_sink : Bool
  pub created_at : ℕ
  pub last_heartbeat : ℕ
  pub last_progress : ℕ

pub record AccountKey : Type 0 where
  pub provider : Text
  pub account_id : Text
  pub member_user_id : Text

unfoldable pub AccountKey-discrete : Discrete AccountKey
AccountKey-discrete = hlevel Text-discrete

instance abbrev pub account_key : Key AccountKey
account_key = record { dec = AccountKey-discrete }

-- `accountKey{provider, accountID, memberUserID}`
abbrev pub account_key_of : Text → Text → Text → AccountKey
account_key_of provider account_id member_user_id = record {
  provider = provider;
  account_id = account_id;
  member_user_id = member_user_id;
}

-- `s.isActive()`
abbrev pub is_active_status : Status → Bool
is_active_status Status.queued = true
is_active_status Status.running = true
is_active_status s = false

abbrev pub is_active : Session → Bool
is_active s = is_active_status s.status

abbrev pub key_of : Session → AccountKey
key_of s = account_key_of s.context.provider s.context.account_id s.context.member_user_id

pub data JobStatus : Type 0 where
  queued running done failed cancelled : JobStatus

pub record Job : Type 0 where
  pub id : Text
  pub owner_user_id : Text
  pub delivery : Context
  pub status : JobStatus
  pub error : Text

job_status : Status → JobStatus
job_status Status.queued = JobStatus.queued
job_status Status.running = JobStatus.running
job_status Status.done = JobStatus.done
job_status Status.failed = JobStatus.failed
job_status Status.cancelled = JobStatus.cancelled
job_status Status.revoked = JobStatus.failed

job_error : Status → Text → Text
job_error Status.failed e = e
job_error Status.revoked e = e
job_error s e = []

-- `s.toJob()`
unfoldable pub to_job : Session → Job
unfolding job_status job_error
to_job s = record {
  id = s.id;
  owner_user_id = s.context.member_user_id;
  delivery = s.context;
  status = job_status s.status;
  error = job_error s.status s.error;
}

-- What the engine does to its collaborators, newest first.
pub data Effect : Type 0 where
  recorded : Job → Effect
  delivered : Text → Track → Effect
  menu_ready : Text → Effect
  finalized : Text → Effect
  aborted : Text → Effect

pub record Engine : Type 0 where
  pub sessions : List (Text × Session)
  pub by_account : List (AccountKey × List Text)
  pub seq : ℕ
  pub ttl : ℕ
  pub interval : ℕ
  pub grace : ℕ
  pub instance_policy : Set
  pub effects : List Effect

-- `New`, with the instance policy resolved and no session yet.
unfoldable pub new : Set → ℕ → ℕ → ℕ → Engine
new instance_policy ttl interval grace = record {
  sessions = [];
  by_account = [];
  seq = 0;
  ttl = ttl;
  interval = interval;
  grace = grace;
  instance_policy = instance_policy;
  effects = [];
}

pub data Error : Type 0 where
  invalid : Error
  not_found : Error
  quota : ℕ → Error
  denied : Error
  unknown : Error

-- `Code(err)`
unfoldable pub code : Option Error → ℕ
code none = 0
code (some invalid) = 3
code (some not_found) = 5
code (some (quota position)) = 8
code (some denied) = 7
code (some unknown) = 2

-- `QuotaPosition(err)`
unfoldable pub quota_position : Error → ℕ
quota_position (quota position) = position
quota_position e = 0

-- `e.newSessionID()` for the counter's new value.
unfoldable pub session_id : ℕ → Text
session_id n = text "del-" ++ decimal n

pub session_id-injective : (m n : ℕ) → session_id m ≡ session_id n → m ≡ n
unfolding session_id
session_id-injective m n e = decimal-injective m n (ground arith)

-- `e.byAccount[key]`, where a missing key reads as the nil set.
unfoldable pub index_of : AccountKey → List (AccountKey × List Text) → List Text
index_of key index = elim (lookup key index) [ none ↦ [] | some ids ↦ ids ]

-- The set is made if it is missing, and gains the id.
unfoldable pub add_index :
    AccountKey → Text → List (AccountKey × List Text) → List (AccountKey × List Text)
add_index key id index = insert key (id ∷ index_of key index) index

unfoldable pub without : Text → List Text → List Text
without id [] = []
without id (j ∷ ids) = if j == id then without id ids else j ∷ without id ids

-- `delete(e.byAccount[key], id)`, which does nothing to a missing set.
unfoldable pub remove_index :
    AccountKey → Text → List (AccountKey × List Text) → List (AccountKey × List Text)
remove_index key id index = elim (lookup key index) [
  | none ↦ index
  | some ids ↦ insert key (without id ids) index
]

-- `e.Get(id)`
abbrev pub get : Engine → Text → Option Session
get e id = lookup id e.sessions

-- `e.LiveSessions()`
unfoldable pub live_sessions : Engine → ℕ
live_sessions e = count_values is_active e.sessions
