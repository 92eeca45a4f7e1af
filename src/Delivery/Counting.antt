-- ===== src/Delivery/Counting.antt =====
-- What each method does to the number of active sessions.
use abcmovies.Base.{
  ℕ, ◌+◌, ◌≤◌, ◌≡◌, inl, inr, Bool, true, ◌&&◌, List, [], ◌∷◌, Text, if◌then◌else◌, some, lookup,
  count_values, text_key, arith, lookup-insert, count_values-insert, count_values-insert_over,
  count_values-delete, count_values-map_values, Option-cases,
}
use abcmovies.Base.Int.{ℤ}
use abcmovies.Delivery.Manifest.{Track}
use abcmovies.Delivery.Session.{Status, Context, Session, Engine, is_active, account_key}
use abcmovies.Delivery.Start.{
  Wiring, Prepared, put_session, register, launch, admit, resolve_constraints,
}
use abcmovies.Delivery.Ending.{
  limit_under, enforce_cap, end_where, end_indexed, apply_account_cap, complete, completed,
}
use abcmovies.Delivery.Liveness.{heartbeat, progress, bury_one, bury}

-- The active sessions whose context passes a test.
abbrev pub counted : (Context → Bool) → Session → Bool
counted q s = is_active s && q s.context

abbrev pub active : (Context → Bool) → Engine → ℕ
active q e = count_values (counted q) e.sessions

module _ (q : Context → Bool) where
  pub put_session-active :
      (e : Engine) (s t : Session)
      → lookup s.id e.sessions ≡ some t
      → (counted q s ≡ true → counted q t ≡ true)
      → active q (put_session e s) ≤ active q e
  unfolding put_session
  put_session-active e s t h k = count_values-insert_over (counted q) s.id s t e.sessions h k

  lookup-put_session : (e : Engine) (s : Session) → lookup s.id (put_session e s).sessions ≡ some s
  unfolding put_session
  lookup-put_session e s = ground (arith, lookup-insert s.id s.id s e.sessions)

  pub launch-active :
      (e : Engine) (w : Wiring) (s : Session) (tracks : List Track)
      → is_active s ≡ true
      → lookup s.id e.sessions ≡ some s
      → active q (launch e w s tracks).0 ≤ active q e
  unfolding launch
  launch-active e w s tracks h k =
      let running = record s { status = Status.running } in
      let staged = record running { menu = tracks } in
      ground (
        arith,
        put_session-active e running s k,
        put_session-active (put_session e running) staged running (lookup-put_session e running),
      )

  pub register-active :
      (e : Engine) (s : Session)
      → active q (register e s) ≤ active q e + (if counted q s then 1 else 0)
  unfolding register
  register-active e s = count_values-insert (counted q) s.id s e.sessions

  pub lookup-register : (e : Engine) (s : Session) → lookup s.id (register e s).sessions ≡ some s
  unfolding register
  lookup-register e s = ground (arith, lookup-insert s.id s.id s e.sessions)

  -- Admission adds at most the one session, and only below both limits.
  pub admit-active :
      (e : Engine) (w : Wiring) (s : Session) (p : Prepared)
      → is_active s ≡ true
      → active q (admit e w s p).0 ≤ active q e + (if counted q s then 1 else 0)
  unfolding admit
  admit-active e w s p h = ground (
    arith,
    launch-active (register e s) w s p.tracks h (lookup-register e s),
    register-active e s,
  )

module _ (q : Context → Bool) where
  pub end_where-active :
      (p : Text → Session → Bool) (reason : Text) (e : Engine)
      → active q (end_where p reason e) ≤ active q e
  unfolding end_where
  end_where-active p reason e =
      count_values-map_values (counted q) _ (λ id s. ground arith) e.sessions

  pub heartbeat-active :
      (e : Engine) (id member : Text) (now : ℕ)
      → active q (heartbeat e id member now).0 ≤ active q e
  unfolding heartbeat
  heartbeat-active e id member now = elim (Option-cases (lookup id e.sessions)) [
    | inl gone ↦ rw (gone, heartbeat) (omega arith)
    | inr (s, found) ↦
        rw (found, heartbeat)
          (ground (
            arith,
            count_values-insert_over (counted q) id (record s { last_heartbeat = now }) s e.sessions
                found,
          ))
  ]

  pub progress-active :
      (e : Engine) (id : Text) (percent now : ℕ)
      → active q (progress e id percent now).0 ≤ active q e
  unfolding progress
  progress-active e id percent now = elim (Option-cases (lookup id e.sessions)) [
    | inl gone ↦ rw (gone, progress) (omega arith)
    | inr (s, found) ↦
        rw (found, progress)
          (ground (
            arith,
            count_values-insert_over (counted q) id (record s { last_progress = now }) s e.sessions
                found,
          ))
  ]

  pub complete-active :
      (e : Engine) (w : Wiring) (id : Text) → active q (complete e w id).0 ≤ active q e
  unfolding complete completed
  complete-active e w id = elim (Option-cases (lookup id e.sessions)) [
    | inl gone ↦ rw (gone, complete) (omega arith)
    | inr (s, found) ↦
        rw (found, complete)
          (count_values-insert_over (counted q) id (completed w s) s e.sessions found
            (λ h. ground arith))
  ]

  pub bury-active : (ds : List Session) (e : Engine) → active q (bury ds e) ≤ active q e
  unfolding bury bury_one
  bury-active [] e = omega arith
  bury-active (d ∷ ds) e =
      omega (arith, bury-active ds (bury_one d e), count_values-delete (counted q) d.id e.sessions)

pub enforce_cap-active :
    (q : Context → Bool) (e : Engine) (provider account_id : Text) (limit : ℤ)
    → active q (enforce_cap e provider account_id limit).0 ≤ active q e
unfolding enforce_cap end_indexed
enforce_cap-active q e provider account_id limit = end_where-active q _ _ e

pub apply_account_cap-active :
    (q : Context → Bool) (e : Engine) (w : Wiring) (provider account_id : Text) (enforce : Bool)
    → active q (apply_account_cap e w provider account_id enforce).0 ≤ active q e
unfolding apply_account_cap
apply_account_cap-active q e w provider account_id enforce =
    elim (Option-cases (resolve_constraints w provider account_id)) [
      | inl failed ↦ rw (failed, apply_account_cap) (omega arith)
      | inr (constraints, found) ↦
          rw (found, apply_account_cap)
            (ground (arith, enforce_cap-active q e provider account_id (limit_under e constraints)))
    ]
