-- ===== src/Delivery/Consistency.antt =====
-- The agreement of table and index holds after every call of the engine.
use abcmovies.Base.{
  ℕ, suc, ◌≡◌, refl, inl, inr, Bool, true, List, [], ◌∷◌, Text, some, lookup, text_key, arith,
  lookup-insert, Option-cases, contains,
}
use abcmovies.Base.Int.{ℤ}
use abcmovies.Policy.Limits.{Set}
use abcmovies.Delivery.Manifest.{Track}
use abcmovies.Delivery.Session.{
  Status, Session, Engine, account_key, account_key_of, key_of, is_active, index_of, session_id,
  new,
}
use abcmovies.Delivery.Start.{
  Wiring, StartRequest, Prepared, put_session, register, launch, admit, create, prepare, start,
  new_session, Check-cases, resolve_constraints,
}
use abcmovies.Delivery.Ending.{
  limit_under, end_where, end_indexed, enforce_cap, revoke_account, revoke_all_on_account,
  revoke_others_on_account, apply_account_cap, complete, completed,
}
use abcmovies.Delivery.Liveness.{heartbeat, progress, bury_one, bury, sweep}
use abcmovies.Delivery.Engine.{
  Call, starts, heartbeats, progresses, revokes_account, revokes_all, revokes_others, applies_cap,
  completes, sweeps, step, run,
}
use abcmovies.Delivery.Invariant.{
  Consistent, write-Agrees, later-Agrees, register-Agrees, remove-Agrees, end-Agrees,
  end_key-Agrees,
}

lookup-put_session : (e : Engine) (s : Session) → lookup s.id (put_session e s).sessions ≡ some s
unfolding put_session
lookup-put_session e s = ground (arith, lookup-insert s.id s.id s e.sessions)

put_session-Consistent :
    (e : Engine) (s t : Session)
    → lookup s.id e.sessions ≡ some t
    → s.id ≡ t.id
    → key_of s ≡ key_of t
    → (is_active s ≡ true → is_active t ≡ true)
    → Consistent e
    → Consistent (put_session e s)
unfolding put_session
put_session-Consistent e s t found i k a v = write-Agrees v s.id t s found i k a

launch-Consistent :
    (e : Engine) (w : Wiring) (s : Session) (tracks : List Track)
    → is_active s ≡ true
    → lookup s.id e.sessions ≡ some s
    → Consistent e
    → Consistent (launch e w s tracks).0
unfolding launch
launch-Consistent e w s tracks a found v =
    let running = record s { status = Status.running } in
    let staged = record running { menu = tracks } in
    let first = put_session-Consistent e running s found refl refl (λ _. a) v in
    let second =
      put_session-Consistent (put_session e running) staged running (lookup-put_session e running)
        refl refl (λ _. refl) first in
    ground (arith, second, first)

lookup-register : (e : Engine) (s : Session) → lookup s.id (register e s).sessions ≡ some s
unfolding register
lookup-register e s = ground (arith, lookup-insert s.id s.id s e.sessions)

register-Consistent :
    (e : Engine) (s : Session)
    → s.id ≡ session_id (suc e.seq)
    → Consistent e
    → Consistent (register (record e { seq = suc e.seq }) s)
unfolding register
register-Consistent e s new v = register-Agrees v s new

admit-Consistent :
    (e : Engine) (w : Wiring) (s : Session) (p : Prepared)
    → is_active s ≡ true
    → s.id ≡ session_id (suc e.seq)
    → Consistent e
    → Consistent (admit (record e { seq = suc e.seq }) w s p).0
unfolding admit
admit-Consistent e w s p a new v =
    let e' = record e { seq = suc e.seq } in
    let launched =
      launch-Consistent (register e' s) w s p.tracks a (lookup-register e' s)
        (register-Consistent e s new v) in
    ground (arith, later-Agrees v, launched)

create-Consistent :
    (e : Engine) (w : Wiring) (req : StartRequest) (now : ℕ) (p : Prepared)
    → Consistent e
    → Consistent (create e w req now p).0
unfolding create new_session
create-Consistent e w req now p v = elim (Option-cases w.new_sink) [
  | inl direct ↦
      rw (direct, create)
        (admit-Consistent e w (new_session (session_id (suc e.seq)) req now p) p refl refl v)
  | inr (make, wired) ↦
      rw (wired, create)
        (ground (
          arith,
          admit-Consistent e w
              (record (new_session (session_id (suc e.seq)) req now p) { has_sink = true }) p refl
              refl v,
          later-Agrees v,
        ))
]

start-Consistent :
    (e : Engine) (w : Wiring) (req : StartRequest) (now : ℕ)
    → Consistent e
    → Consistent (start e w req now).0
unfolding start
start-Consistent e w req now v = elim (Check-cases (prepare e w req)) [
  | inl (p, found) ↦ rw (found, start) (create-Consistent e w req now p v)
  | inr (x, found) ↦ rw (found, start) v
]

heartbeat-Consistent :
    (e : Engine) (id member : Text) (now : ℕ)
    → Consistent e
    → Consistent (heartbeat e id member now).0
unfolding heartbeat
heartbeat-Consistent e id member now v = elim (Option-cases (lookup id e.sessions)) [
  | inl gone ↦ rw (gone, heartbeat) v
  | inr (s, found) ↦
      let written =
        write-Agrees v id s (record s { last_heartbeat = now }) found refl refl (λ a. a) in
      rw (found, heartbeat) (ground (arith, v, written))
]

progress-Consistent :
    (e : Engine) (id : Text) (percent now : ℕ)
    → Consistent e
    → Consistent (progress e id percent now).0
unfolding progress
progress-Consistent e id percent now v = elim (Option-cases (lookup id e.sessions)) [
  | inl gone ↦ rw (gone, progress) v
  | inr (s, found) ↦
      let written =
        write-Agrees v id s (record s { last_progress = now }) found refl refl (λ a. a) in
      rw (found, progress) (ground (arith, v, written))
]

complete-Consistent :
    (e : Engine) (w : Wiring) (id : Text) → Consistent e → Consistent (complete e w id).0
unfolding complete completed
complete-Consistent e w id v = elim (Option-cases (lookup id e.sessions)) [
  | inl gone ↦ rw (gone, complete) v
  | inr (s, found) ↦
      rw (found, complete)
        (write-Agrees v id s (completed w s) found (ground arith) (ground arith)
          (λ a. ground arith))
]

enforce_cap-Consistent :
    (e : Engine) (provider account_id : Text) (limit : ℤ)
    → Consistent e
    → Consistent (enforce_cap e provider account_id limit).0
unfolding enforce_cap end_indexed end_where
enforce_cap-Consistent e provider account_id limit v = end-Agrees v _ _

apply_account_cap-Consistent :
    (e : Engine) (w : Wiring) (provider account_id : Text) (enforce : Bool)
    → Consistent e
    → Consistent (apply_account_cap e w provider account_id enforce).0
unfolding apply_account_cap
apply_account_cap-Consistent e w provider account_id enforce v =
    elim (Option-cases (resolve_constraints w provider account_id)) [
      | inl failed ↦ rw (failed, apply_account_cap) v
      | inr (constraints, found) ↦
          rw (found, apply_account_cap)
            (ground (
              arith,
              enforce_cap-Consistent e provider account_id (limit_under e constraints) v,
              v,
            ))
    ]

bury-Consistent : (ds : List Session) (e : Engine) → Consistent e → Consistent (bury ds e)
unfolding bury bury_one
bury-Consistent [] e v = v
bury-Consistent (d ∷ ds) e v = bury-Consistent ds (bury_one d e) (remove-Agrees v (key_of d) d.id)

pub step-Consistent :
    (e : Engine) (w : Wiring) (now : ℕ) (c : Call) → Consistent e → Consistent (step e w now c)
unfolding step revoke_account revoke_all_on_account revoke_others_on_account end_indexed end_where
    sweep
step-Consistent e w now (starts req) v = start-Consistent e w req now v
step-Consistent e w now (heartbeats id member) v = heartbeat-Consistent e id member now v
step-Consistent e w now (progresses id percent) v = progress-Consistent e id percent now v
step-Consistent e w now (revokes_account provider account member) v =
    end_key-Agrees v (account_key_of provider account member) _
step-Consistent e w now (revokes_all account) v = end-Agrees v _ _
step-Consistent e w now (revokes_others provider account keep) v = end-Agrees v _ _
step-Consistent e w now (applies_cap provider account enforce) v =
    apply_account_cap-Consistent e w provider account enforce v
step-Consistent e w now (completes id) v = complete-Consistent e w id v
step-Consistent e w now sweeps v = bury-Consistent _ e v

run-Consistent :
    (calls : List (Wiring × ℕ × Call)) (e : Engine) → Consistent e → Consistent (run e calls)
unfolding run
run-Consistent [] e v = v
run-Consistent ((w, now, c) ∷ calls) e v =
    run-Consistent calls (step e w now c) (step-Consistent e w now c v)

new_Agrees : (policy : Set) (ttl interval grace : ℕ) → Consistent (new policy ttl interval grace)
unfolding new lookup index_of contains
new_Agrees policy ttl interval grace = record {
  distinct = tt;
  named = λ id s h. cc;
  minted = λ id s h. absurd (ground arith);
  indexed = λ id s h a. cc;
  sound = λ key id s i h. cc;
  seen = λ key id h. absurd (ground arith);
}

-- From a new engine, after any calls, table and index agree: no id stands twice, every session
-- stands under its own id, which the counter has handed out, every active session is in the set of
-- its own account and member, and every id in a set is of a session of that account and member.
pub run-new-Consistent :
    (policy : Set) (ttl interval grace : ℕ) (calls : List (Wiring × ℕ × Call))
    → Consistent (run (new policy ttl interval grace) calls)
run-new-Consistent policy ttl interval grace calls =
    run-Consistent calls _ (new_Agrees policy ttl interval grace)
