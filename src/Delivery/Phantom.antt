-- ===== src/Delivery/Phantom.antt =====
-- What `Start` of core/internal/delivery/delivery.go leaves behind when a play menu cannot be staged.
use abcmovies.Base.{
  ℕ, suc, ◌≡◌, refl, ap, ◌∙◌, Bool, true, false, ◌==◌, List, [], ◌∷◌, none, some, lookup, insert,
  count_values, text_key, arith, lookup-insert, In, inl, inr, count_values-insert_new,
  count_values-insert_same,
}
use abcmovies.Base.Int.{at_least}
use abcmovies.Policy.Limits.{streams, effective_account_limit}
use abcmovies.Delivery.Manifest.{Track, is_empty}
use abcmovies.Delivery.Pipeline.{Goal}
use abcmovies.Delivery.Session.{
  account_key, account_key_of, Status, Session, Engine, Effect, session_id, unknown,
}
use abcmovies.Delivery.Index.{indexes, indexes-add}
use abcmovies.Delivery.Start.{
  Wiring, StartRequest, Prepared, passed, refused, active_for_member, active_on_account,
  put_session, register, stage_menu, launch, admit, create, prepare, start, new_session,
}

-- A track with a location that cannot be delivered stops the staging.
stage_menu-fails :
    (w : Wiring) (s : Session) (tracks : List Track) (done : List Effect) (tr : Track)
    → In tr tracks
    → is_empty tr.locations ≡ false
    → w.deliver s tr ≡ false
    → (stage_menu w s tracks done).1 ≡ false
unfolding stage_menu
stage_menu-fails w s [] done tr i located fails = absurd i
stage_menu-fails w s (t ∷ tracks) done tr (inl e) located fails = ground (arith, e, located, fails)
stage_menu-fails w s (t ∷ tracks) done tr (inr i) located fails = ground (
  arith,
  stage_menu-fails w s tracks done tr i located fails,
  stage_menu-fails w s tracks (Effect.delivered s.id t ∷ done) tr i located fails,
)

some_tracks : (tracks : List Track) (tr : Track) → In tr tracks → is_empty tracks ≡ false
some_tracks [] tr i = absurd i
some_tracks (t ∷ tracks) tr i = refl

-- The session is registered, run and given its menu, and stays so when the staging fails.
abbrev left : Engine → Session → List Track → Engine
left e s tracks =
    let running = record s { status = Status.running } in
    put_session (put_session (register e s) running) (record running { menu = tracks })

launch-left :
    (e : Engine) (w : Wiring) (s : Session) (tracks : List Track)
    → s.goal ≡ Goal.play
    → s.has_sink ≡ true
    → is_empty tracks ≡ false
    → ((done : List Effect)
        → (stage_menu w (record s { status = Status.running; menu = tracks }) tracks done).1
          ≡ false)
    → let (after, answer) = launch (register e s) w s tracks in
      (answer ≡ refused unknown)
      × (after.sessions ≡ (left e s tracks).sessions)
      × (after.by_account ≡ (register e s).by_account)
unfolding launch put_session
launch-left e w s tracks play sink many fails =
    let running = record s { status = Status.running } in
    ground (arith, play, sink, many, fails (put_session (register e s) running).effects)

-- The sessions that stay: one more under each count that the new session passes.
left-counted :
    (p : Session → Bool) (e : Engine) (s : Session) (tracks : List Track)
    → lookup s.id e.sessions ≡ none
    → p s ≡ true
    → p (record s { status = Status.running }) ≡ true
    → p (record s { status = Status.running; menu = tracks }) ≡ true
    → count_values p (left e s tracks).sessions ≡ suc (count_values p e.sessions)
unfolding put_session register
left-counted p e s tracks new a b c =
    let running = record s { status = Status.running } in
    let staged = record running { menu = tracks } in
    let one = insert s.id s e.sessions in
    ground (
      arith,
      count_values-insert_new p s.id s e.sessions new,
      count_values-insert_same p s.id running s one,
      lookup-insert s.id s.id s e.sessions,
      count_values-insert_same p s.id staged running (insert s.id running one),
      lookup-insert s.id s.id running one,
    )

-- The session that `Start` makes, with its sink.
abbrev pub fresh_session : Engine → StartRequest → ℕ → Prepared → Session
fresh_session e req now p = record (new_session (session_id (suc e.seq)) req now p) {
  has_sink = true;
}

start-launch :
    (e : Engine) (w : Wiring) (req : StartRequest) (now : ℕ) (p : Prepared)
    (make : Session → List Track → Bool)
    → prepare e w req ≡ passed p
    → w.new_sink ≡ some make
    → make (new_session (session_id (suc e.seq)) req now p) p.tracks ≡ true
    → at_least
        (count_values (active_for_member req.member_user_id) e.sessions)
        (streams e.instance_policy).0
      ≡ false
    → at_least
        (count_values (active_on_account req.provider req.account_id) e.sessions)
        (effective_account_limit p.effective_policy p.cap_set)
      ≡ false
    → let e' = record e { seq = suc e.seq } in
      start e w req now
      ≡ launch (register e' (fresh_session e req now p)) w (fresh_session e req now p) p.tracks
unfolding start create admit new_session
start-launch e w req now p make checked wired made member account =
    rw (start, checked, wired, made, member, account) refl

-- What is left of a session whose `Start` failed: it is in the table, active, with its menu, and
-- indexed, and it counts once more for its member and its account.
pub record IsPhantom (e after : Engine) (req : StartRequest) : Type 0 where
  pub session : Session
  pub there : lookup (session_id (suc e.seq)) after.sessions ≡ some session
  pub runs : session.status ≡ Status.running
  pub indexed :
      indexes after.by_account
        (account_key_of req.provider req.account_id req.member_user_id)
        (session_id (suc e.seq))
      ≡ true
  pub member :
      count_values (active_for_member req.member_user_id) after.sessions
      ≡ suc (count_values (active_for_member req.member_user_id) e.sessions)
  pub account :
      count_values (active_on_account req.provider req.account_id) after.sessions
      ≡ suc (count_values (active_on_account req.provider req.account_id) e.sessions)

-- If the checks pass, neither limit is reached, and the sink is made, but one of the tracks with a
-- location cannot be delivered to it, the play request fails; yet its session stays in the table,
-- running and indexed, and counts against both limits.
pub start-IsPhantom :
    (e : Engine) (w : Wiring) (req : StartRequest) (now : ℕ) (p : Prepared)
    (make : Session → List Track → Bool) (tr : Track)
    → prepare e w req ≡ passed p
    → req.goal ≡ Goal.play
    → w.new_sink ≡ some make
    → make (new_session (session_id (suc e.seq)) req now p) p.tracks ≡ true
    → at_least
        (count_values (active_for_member req.member_user_id) e.sessions)
        (streams e.instance_policy).0
      ≡ false
    → at_least
        (count_values (active_on_account req.provider req.account_id) e.sessions)
        (effective_account_limit p.effective_policy p.cap_set)
      ≡ false
    → lookup (session_id (suc e.seq)) e.sessions ≡ none
    → In tr p.tracks
    → is_empty tr.locations ≡ false
    → ((s : Session) → w.deliver s tr ≡ false)
    → ((start e w req now).1 ≡ refused unknown) × IsPhantom e (start e w req now).0 req
unfolding put_session register new_session
start-IsPhantom e w req now p make tr checked play wired made member account new i located fails =
    let s = fresh_session e req now p in
    let e' = record e { seq = suc e.seq } in
    let running = record s { status = Status.running } in
    let staged = record running { menu = p.tracks } in
    let key = account_key_of req.provider req.account_id req.member_user_id in
    let of_member = active_for_member req.member_user_id in
    let of_account = active_on_account req.provider req.account_id in
    let mine : (req.member_user_id == req.member_user_id) ≡ true = ground arith in
    let its_provider : (req.provider == req.provider) ≡ true = ground arith in
    let its_account : (req.account_id == req.account_id) ≡ true = ground arith in
    let (refusal, sessions, index) =
      launch-left e' w s p.tracks play refl (some_tracks p.tracks tr i)
        (λ done. stage_menu-fails w staged p.tracks done tr i located (fails staged)) in
    rw (start-launch e w req now p make checked wired made member account) (
      refusal,
      record {
        session = staged;
        there =
            ap (lookup s.id) sessions
            ∙ ground (
              arith,
              lookup-insert s.id s.id staged (insert s.id running (insert s.id s e.sessions)),
            );
        runs = refl;
        indexed =
            ap (λ ids. indexes ids key s.id) index
            ∙ ground (arith, indexes-add key key s.id s.id e.by_account);
        member =
            ap (count_values of_member) sessions
            ∙ left-counted of_member e' s p.tracks new mine mine mine;
        account =
            ap (count_values of_account) sessions
            ∙ left-counted of_account e' s p.tracks new (ground (arith, its_provider, its_account))
                (ground (arith, its_provider, its_account))
                (ground (arith, its_provider, its_account));
      },
    )
