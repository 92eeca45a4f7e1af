-- ===== src/Delivery/Liveness.antt =====
-- The liveness half of core/internal/delivery/delivery.go: heartbeats, progress and the watchdog's
-- sweep.
use abcmovies.Base.{
  ℕ, ◌+◌, ◌-◌, Bool, not, List, [], ◌∷◌, Text, text, ◌==◌, if◌then◌else◌, Option, none, some,
  insert, delete, lookup, text_key, ltb,
}
use abcmovies.Delivery.Pipeline.{Goal}
use abcmovies.Delivery.Session.{
  Status, Session, Engine, is_active, key_of, to_job, remove_index, recorded, not_found, denied,
  invalid, account_key,
}
use abcmovies.Delivery.Start.{Check, passed, refused}

unfoldable pub heartbeat : Engine → Text → Text → ℕ → Engine × Check (Unit {0})
heartbeat e id member_user_id now = elim (lookup id e.sessions) [
  | none ↦ (e, refused not_found)
  | some s ↦
      if not (s.context.member_user_id == member_user_id)
      then (e, refused denied)
      else if not (is_active s)
      then (e, refused invalid)
      else (
        record e { sessions = insert id (record s { last_heartbeat = now }) e.sessions },
        passed tt,
      )
]

unfoldable pub progress : Engine → Text → ℕ → ℕ → Engine × Check (Unit {0})
progress e id percent now = elim (lookup id e.sessions) [
  | none ↦ (e, refused not_found)
  | some s ↦
      if not (is_active s)
      then (e, refused invalid)
      else if ltb 100 percent
      then (e, refused invalid)
      else (
        record e { sessions = insert id (record s { last_progress = now }) e.sessions },
        passed tt,
      )
]

-- `now.Sub(then) > limit`: a clock that went back gives a negative difference, which is not above.
abbrev pub older_than : ℕ → ℕ → ℕ → Bool
older_than limit since now = ltb limit (now - since)

-- Whether a silent session has gone past its own limit: heartbeats for a play, progress otherwise.
unfoldable pub silent : Engine → ℕ → Session → Option Text
silent e now s = elim s.goal [
  | Goal.play ↦
      if older_than (e.interval + e.grace) s.last_heartbeat now
      then some (text "heartbeat timed out")
      else none
  | _ ↦ if older_than e.ttl s.last_progress now then some (text "download stalled") else none
]

-- The session as the sweep fails it, or `none` for one that stays.
unfoldable pub expire : Engine → ℕ → Session → Option Session
unfolding silent
expire e now s = if not (is_active s) then none else elim (silent e now s) [
  | some reason ↦ some (record s { status = Status.failed; error = reason })
  | none ↦
      if older_than e.ttl s.created_at now
      then some (record s { status = Status.failed; error = text "session TTL expired" })
      else none
]

-- The sessions that the loop over the table collects.
unfoldable pub dead : Engine → ℕ → List (Text × Session) → List Session
dead e now [] = []
dead e now ((id, s) ∷ m) = elim (expire e now s) [ none ↦ dead e now m | some d ↦ d ∷ dead e now m ]

-- A dead session leaves the table and the index, and its job is recorded.
unfoldable pub bury_one : Session → Engine → Engine
bury_one d e = record e {
  sessions = delete d.id e.sessions;
  by_account = remove_index (key_of d) d.id e.by_account;
  effects = recorded (to_job d) ∷ e.effects;
}

unfoldable pub bury : List Session → Engine → Engine
bury [] e = e
bury (d ∷ ds) e = bury ds (bury_one d e)

unfoldable pub sweep : Engine → ℕ → Engine
sweep e now = bury (dead e now e.sessions) e
