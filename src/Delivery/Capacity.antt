-- ===== src/Delivery/Capacity.antt =====
-- The concurrent-stream limits: what admission guarantees, and that no later call breaks it.
use abcmovies.Base.{
  ℕ, suc, ◌≤◌, ◌≡◌, refl, ap, ◌≢◌, inl, inr, Bool, true, List, [], ◌∷◌, Text, ◌==◌, count_values,
  text_key, Text-discrete, arith,
}
use abcmovies.Base.Int.{pos}
use abcmovies.Policy.Limits.{Set, Formats, parse_instance, streams}
use abcmovies.Policy.Validation.{streams-parse_instance}
use abcmovies.Delivery.Manifest.{Track}
use abcmovies.Delivery.Session.{new, session_id, Context, Session, Engine, is_active, account_key}
use abcmovies.Delivery.Start.{
  Wiring, StartRequest, Prepared, active_for_member, put_session, register, launch, admit, create,
  prepare, start, new_session, Check-cases,
}
use abcmovies.Delivery.Ending.{
  enforce_cap, end_where, end_indexed, revoke_account, revoke_all_on_account,
  revoke_others_on_account, apply_account_cap, complete,
}
use abcmovies.Delivery.Liveness.{heartbeat, progress, bury_one, bury, sweep}
use abcmovies.Delivery.Engine.{
  Call, starts, heartbeats, progresses, revokes_account, revokes_all, revokes_others, applies_cap,
  completes, sweeps, step, run,
}
use abcmovies.Delivery.Counting.{
  active, lookup-register, launch-active, register-active, end_where-active, heartbeat-active,
  progress-active, complete-active, bury-active, apply_account_cap-active,
}

-- The table never grows past a limit that admission checks: either nothing that counts is added,
-- or the count was below the limit.
abbrev Capped : ℕ → Engine → Type 0
Capped limit e =
    ((streams e.instance_policy).0 ≡ pos limit)
    × ((member : Text) → count_values (active_for_member member) e.sessions ≤ limit)

abbrev pub about : Text → Context → Bool
about member c = c.member_user_id == member

admit-Capped :
    (limit : ℕ) (e : Engine) (w : Wiring) (s : Session) (p : Prepared)
    → is_active s ≡ true
    → Capped limit e
    → (member : Text) → count_values (active_for_member member) (admit e w s p).0.sessions ≤ limit
unfolding admit
admit-Capped limit e w s p h c member = elim (Text-discrete s.context.member_user_id member) [
  | yes own ↦ ground (
    arith,
    c.0,
    c.1 member,
    own,
    launch-active (about member) (register e s) w s p.tracks h (lookup-register (about member) e s),
    register-active (about member) e s,
  )
  | no other ↦ ground (
    arith,
    c.1 member,
    launch-active (about member) (register e s) w s p.tracks h (lookup-register (about member) e s),
    register-active (about member) e s,
  )
]

-- No call changes the instance policy.
launch-policy :
    (e : Engine) (w : Wiring) (s : Session) (tracks : List Track)
    → (launch e w s tracks).0.instance_policy ≡ e.instance_policy
unfolding launch put_session
launch-policy e w s tracks = ground arith

admit-policy :
    (e : Engine) (w : Wiring) (s : Session) (p : Prepared)
    → (admit e w s p).0.instance_policy ≡ e.instance_policy
unfolding admit register
admit-policy e w s p = ground (arith, launch-policy (register e s) w s p.tracks)

start-policy :
    (e : Engine) (w : Wiring) (req : StartRequest) (now : ℕ)
    → (start e w req now).0.instance_policy ≡ e.instance_policy
unfolding start create
start-policy e w req now = grind (arith, admit-policy)

create-Capped :
    (limit : ℕ) (e : Engine) (w : Wiring) (req : StartRequest) (now : ℕ) (p : Prepared)
    → Capped limit e
    → (member : Text)
    → count_values (active_for_member member) (create e w req now p).0.sessions ≤ limit
unfolding create new_session
create-Capped limit e w req now p c member =
    let e' = record e { seq = suc e.seq } in
    let s = new_session (session_id (suc e.seq)) req now p in
    ground (
      arith,
      c.1 member,
      admit-Capped limit e' w s p refl c member,
      admit-Capped limit e' w (record s { has_sink = true }) p refl c member,
    )

start-Capped :
    (limit : ℕ) (e : Engine) (w : Wiring) (req : StartRequest) (now : ℕ)
    → Capped limit e
    → Capped limit (start e w req now).0
unfolding start
start-Capped limit e w req now c = (
  rw start-policy c.0,
  λ member. elim (Check-cases (prepare e w req)) [
    | inl (p, e') ↦ rw (e', start) (create-Capped limit e w req now p c member)
    | inr (x, e') ↦ rw (e', start) (c.1 member)
  ],
)

-- Where a call keeps the policy and counts no more sessions, the cap stays.
Capped-mono :
    (limit : ℕ) (e e' : Engine)
    → e'.instance_policy ≡ e.instance_policy
    → ((member : Text)
        → count_values (active_for_member member) e'.sessions
          ≤ count_values (active_for_member member) e.sessions)
    → Capped limit e
    → Capped limit e'
Capped-mono limit e e' same fewer c =
    (rw same c.0, λ member. omega (arith, fewer member, c.1 member))

bury-policy : (ds : List Session) (e : Engine) → (bury ds e).instance_policy ≡ e.instance_policy
unfolding bury bury_one
bury-policy [] e = refl
bury-policy (d ∷ ds) e = bury-policy ds (bury_one d e)

step-policy :
    (e : Engine) (w : Wiring) (now : ℕ) (c : Call)
    → (step e w now c).instance_policy ≡ e.instance_policy
unfolding step heartbeat progress revoke_account revoke_all_on_account revoke_others_on_account
    apply_account_cap enforce_cap complete end_indexed end_where sweep
step-policy e w now (starts req) = start-policy e w req now
step-policy e w now sweeps = bury-policy _ e
step-policy e w now c = ground arith

-- A call that is no start raises no member's count.
step-active :
    (q : Context → Bool) (e : Engine) (w : Wiring) (now : ℕ) (c : Call)
    → ((req : StartRequest) → c ≢ starts req)
    → active q (step e w now c) ≤ active q e
unfolding step revoke_account revoke_all_on_account revoke_others_on_account apply_account_cap
    end_indexed sweep
step-active q e w now (starts req) h = absurd (h req refl)
step-active q e w now (heartbeats id member) h = heartbeat-active q e id member now
step-active q e w now (progresses id percent) h = progress-active q e id percent now
step-active q e w now (revokes_account provider account member) h = end_where-active q _ _ e
step-active q e w now (revokes_all account) h = end_where-active q _ _ e
step-active q e w now (revokes_others provider account keep) h = end_where-active q _ _ e
step-active q e w now (applies_cap provider account enforce) h =
    apply_account_cap-active q e w provider account enforce
step-active q e w now (completes id) h = complete-active q e w id
step-active q e w now sweeps h = bury-active q _ e

-- No call ever lets a member have more active sessions than the instance's concurrent-stream limit.
pub step-Capped :
    (limit : ℕ) (e : Engine) (w : Wiring) (now : ℕ) (c : Call)
    → Capped limit e
    → Capped limit (step e w now c)
unfolding step
step-Capped limit e w now (starts req) h = start-Capped limit e w req now h
step-Capped limit e w now c h =
    Capped-mono limit e (step e w now c) (step-policy e w now c)
      (λ member. step-active (about member) e w now c (λ req eq. cc)) h

run-Capped :
    (limit : ℕ) (calls : List (Wiring × ℕ × Call)) (e : Engine)
    → Capped limit e
    → Capped limit (run e calls)
unfolding run
run-Capped limit [] e h = h
run-Capped limit ((w, now, c) ∷ calls) e h =
    run-Capped limit calls (step e w now c) (step-Capped limit e w now c h)

nothing_counted : {limit : ℕ} (p : Session → Bool) → count_values {K = Text} p [] ≤ limit
unfolding count_values
nothing_counted p = omega arith

-- Under a validated instance policy there is a positive limit such that no member ever has more
-- active sessions than it, whatever calls are made, in whatever order, and whatever the
-- collaborators answer.
pub run-new-capped :
    (formats : Formats) (raw policy : Set) (ttl interval grace : ℕ)
    → parse_instance formats raw ≡ inr policy
    → (limit : ℕ) × (1 ≤ limit)
      × (streams policy ≡ (pos limit, true))
      × ((calls : List (Wiring × ℕ × Call)) (member : Text)
          → count_values
              (active_for_member member)
              (run (new policy ttl interval grace) calls).sessions
            ≤ limit)
unfolding new
run-new-capped formats raw policy ttl interval grace h =
    let (limit, e, positive) = streams-parse_instance formats raw policy h in
    (
      limit,
      positive,
      e,
      λ calls.
          (run-Capped limit calls (new policy ttl interval grace)
            (ap (λ x. x.0) e, λ member. nothing_counted (active_for_member member))).1,
    )
