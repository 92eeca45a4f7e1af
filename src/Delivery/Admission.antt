-- ===== src/Delivery/Admission.antt =====
-- What `Start` of core/internal/delivery/delivery.go guarantees when it succeeds.
use abcmovies.Base.{
  ℕ, suc, ◌≤◌, ◌≡◌, refl, inl, inr, Bool, true, ◌&&◌, List, ◌==◌, some, lookup, insert,
  count_values, text_key, arith, lookup-insert, Option-cases,
}
use abcmovies.Base.Int.{pos}
use abcmovies.Policy.Limits.{streams, effective_account_limit}
use abcmovies.Delivery.Manifest.{Track}
use abcmovies.Delivery.Counting.{launch-active, register-active, lookup-register}
use abcmovies.Delivery.Capacity.{about}
use abcmovies.Delivery.Session.{
  account_key_of, Context, Status, Session, Engine, is_active, key_of, session_id,
}
use abcmovies.Delivery.Start.{
  Wiring, StartRequest, Prepared, passed, active_for_member, active_on_account, put_session,
  register, launch, admit, create, prepare, start, new_session,
}

launch-passed :
    (e : Engine) (w : Wiring) (s t : Session) (tracks : List Track)
    → (launch e w s tracks).1 ≡ passed t
    → (lookup s.id (launch e w s tracks).0.sessions ≡ some t)
      × (t.status ≡ Status.running)
      × (t.context ≡ s.context)
unfolding launch put_session
launch-passed e w s t tracks h =
    let running = record s { status = Status.running } in
    let staged = record running { menu = tracks } in
    ground (
      arith,
      lookup-insert s.id s.id running e.sessions,
      lookup-insert s.id s.id staged (insert s.id running e.sessions),
    )

admit-passed :
    (e : Engine) (w : Wiring) (s t : Session) (p : Prepared)
    → is_active s ≡ true
    → (admit e w s p).1 ≡ passed t
    → (lookup s.id (admit e w s p).0.sessions ≡ some t)
      × (t.status ≡ Status.running)
      × (t.context ≡ s.context)
unfolding admit
admit-passed e w s t p a h = ground (arith, launch-passed (register e s) w s t p.tracks)

admit-within :
    (e : Engine) (w : Wiring) (s t : Session) (p : Prepared)
    → is_active s ≡ true
    → (admit e w s p).1 ≡ passed t
    → ((limit : ℕ)
        → (streams e.instance_policy).0 ≡ pos limit
        → count_values (active_for_member s.context.member_user_id) (admit e w s p).0.sessions
          ≤ limit)
      × ((limit : ℕ)
          → effective_account_limit p.effective_policy p.cap_set ≡ pos limit
          → count_values
              (active_on_account s.context.provider s.context.account_id)
              (admit e w s p).0.sessions
            ≤ limit)
unfolding admit
admit-within e w s t p a h =
    let c = s.context in
    let on_account : Context → Bool =
      λ d. d.provider == c.provider && d.account_id == c.account_id in
    (
      λ limit l. ground (
        arith,
        l,
        launch-active (about c.member_user_id) (register e s) w s p.tracks a
            (lookup-register (about c.member_user_id) e s),
        register-active (about c.member_user_id) e s,
      ),
      λ limit l. ground (
        arith,
        l,
        launch-active on_account (register e s) w s p.tracks a (lookup-register on_account e s),
        register-active on_account e s,
      ),
    )

create_admits :
    (e : Engine) (w : Wiring) (req : StartRequest) (now : ℕ) (p : Prepared) (t : Session)
    → (create e w req now p).1 ≡ passed t
    → (s : Session) × (create e w req now p ≡ admit (record e { seq = suc e.seq }) w s p)
      × (is_active s ≡ true)
      × (s.id ≡ session_id (suc e.seq))
      × (s.context ≡ (new_session (session_id (suc e.seq)) req now p).context)
unfolding create new_session
create_admits e w req now p t h = elim (Option-cases w.new_sink) [
  | inl direct ↦
      (new_session (session_id (suc e.seq)) req now p, ground (arith, direct), refl, refl, refl)
  | inr (make, wired) ↦ (
    record (new_session (session_id (suc e.seq)) req now p) { has_sink = true },
    ground (arith, wired),
    refl,
    refl,
    refl,
  )
]

-- Where the checks pass and `Start` succeeds, the session it returns is in the table under the next
-- id, running, for the member, provider and account of the request, and neither the member nor the
-- account has more active sessions than its limit, the new one included.
pub start-passed :
    (e : Engine) (w : Wiring) (req : StartRequest) (now : ℕ) (p : Prepared) (t : Session)
    → prepare e w req ≡ passed p
    → (start e w req now).1 ≡ passed t
    → let after = (start e w req now).0 in
      (lookup (session_id (suc e.seq)) after.sessions ≡ some t)
      × (t.status ≡ Status.running)
      × (key_of t ≡ account_key_of req.provider req.account_id req.member_user_id)
      × ((limit : ℕ)
          → (streams e.instance_policy).0 ≡ pos limit
          → count_values (active_for_member req.member_user_id) after.sessions ≤ limit)
      × ((limit : ℕ)
          → effective_account_limit p.effective_policy p.cap_set ≡ pos limit
          → count_values (active_on_account req.provider req.account_id) after.sessions ≤ limit)
unfolding start new_session
start-passed e w req now p t checked h =
    let (s, same, a, i, c) = create_admits e w req now p t (ground (arith, checked)) in
    let e' = record e { seq = suc e.seq } in
    let won : (admit e' w s p).1 ≡ passed t = ground (arith, checked, same) in
    let (there, running, context) = admit-passed e' w s t p a won in
    let (members, accounts) = admit-within e' w s t p a won in
    rw (checked, start)
      (rw same (
        rw (← i) there,
        running,
        ground (arith, context, c),
        λ limit l. rw c at (members limit l),
        λ limit l. rw c at (accounts limit l),
      ))
