-- ===== src/Delivery/Start.antt =====
-- `Start` of core/internal/delivery/delivery.go. The provider slots, the sinks and the account store
-- are the engine's collaborators: their answers to this call are the fields of `Wiring`.
use abcmovies.Base.{
  ◌≡◌, refl, ◌⊎◌, inl, inr, ℕ, suc, Bool, true, false, not, ◌&&◌, ◌||◌, List, [], ◌∷◌, Text, ◌==◌,
  if◌then◌else◌, Option, none, some, insert, count_values, text_key,
}
use abcmovies.Base.Int.{at_least}
use abcmovies.Policy.Limits.{Set, with_overlay, streams, effective_account_limit}
use abcmovies.Delivery.Manifest.{Track, MediaSource, is_empty, validate_manifest, drm_free}
use abcmovies.Delivery.Pipeline.{Goal, Plan, select_pipeline, validate_plan}
use abcmovies.Delivery.Session.{
  Status, Session, Engine, Error, Effect, is_active, key_of, to_job, session_id, add_index,
  recorded, delivered, menu_ready, invalid, quota, unknown, account_key,
}

pub record Wiring : Type 0 where
  -- `ProduceSources(provider, accountID, nativeID)`: `none` is an error, `some none` a nil manifest
  pub source_resolver : Option (Text → Text → Text → Option (Option MediaSource))
  -- the account's policy override and the provider-declared cap, or `none` for an error
  pub account_constraints : Option (Text → Text → Option (Set × Set))
  -- whether `NewSink` succeeds
  pub new_sink : Option (Session → List Track → Bool)
  -- whether `Deliver` succeeds
  pub deliver : Session → Track → Bool
  -- the text of `Finalize`'s error, if it fails
  pub finalize : Session → Option Text
  -- `e.menuReady != nil`
  pub announces : Bool

pub record StartRequest : Type 0 where
  pub goal : Goal
  pub member_user_id : Text
  pub provider : Text
  pub account_id : Text
  pub native_id : Text
  pub sink : Text
  pub selected_target : Text
  pub container : Text

-- The outcome of the checks: the first that fails decides.
pub data Check (X : Type 0) : Type 0 where
  refused : Error → Check X
  passed : X → Check X

pub Check-cases :
    {X : Type 0} (c : Check X) → ((x : X) × (c ≡ passed x)) ⊎ ((why : Error) × (c ≡ refused why))
Check-cases (refused why) = inr (why, refl)
Check-cases (passed x) = inl (x, refl)

infixl 5 ◌>>=◌
abbrev pub ◌>>=◌ : {X Y : Type 0} → Check X → (X → Check Y) → Check Y
refused why >>= rest = refused why
passed x >>= rest = rest x

infixl 5 ◌>>◌
abbrev pub ◌>>◌ : {Y : Type 0} → Check (Unit {0}) → Check Y → Check Y
first >> rest = first >>= (λ done. rest)

abbrev pub require : Error → Bool → Check (Unit {0})
require why holds = if holds then passed tt else refused why

abbrev or_fail : {A : Type 0} → Option A → Error → Check A
or_fail none e = refused e
or_fail (some a) e = passed a

abbrev is_goal : Goal → Bool
is_goal Goal.play = true
is_goal Goal.download = true
is_goal (Goal.other g) = false

-- What the checks of `Start` establish before a session exists.
pub record Prepared : Type 0 where
  pub tracks : List Track
  pub plan : Plan
  pub effective_policy : Set
  pub cap_set : Set

-- `e.resolveConstraints`
unfoldable pub resolve_constraints : Wiring → Text → Text → Option (Set × Set)
resolve_constraints w provider account_id = elim w.account_constraints [
  | none ↦ some ([], [])
  | some f ↦ f provider account_id
]

resolve_sources : Wiring → StartRequest → Check MediaSource
resolve_sources w req = do
  produce ← or_fail w.source_resolver invalid
  answer ← or_fail (produce req.provider req.account_id req.native_id) unknown
  or_fail answer invalid

unfoldable pub prepare : Engine → Wiring → StartRequest → Check Prepared
unfolding resolve_sources
prepare e w req = do
  require invalid (is_goal req.goal)
  require invalid (not (req.provider == [] || req.account_id == [] || req.member_user_id == []))
  require invalid (not (req.sink == []))
  src ← resolve_sources w req
  require invalid (validate_manifest src)
  require invalid (drm_free src.tracks)
  plan ← or_fail (select_pipeline req.goal src req.container) invalid
  require invalid (validate_plan plan)
  constraints ← or_fail (resolve_constraints w req.provider req.account_id) invalid
  passed (record {
    tracks = src.tracks;
    plan = plan;
    effective_policy = with_overlay e.instance_policy constraints.0;
    cap_set = constraints.1;
  })

unfoldable pub new_session : Text → StartRequest → ℕ → Prepared → Session
new_session id req now p = record {
  id = id;
  goal = req.goal;
  context = record {
    provider = req.provider;
    account_id = req.account_id;
    member_user_id = req.member_user_id;
    sink = req.sink;
    selected_target = req.selected_target;
    container = req.container;
    policy = p.effective_policy;
    provider_cap = p.cap_set;
  };
  status = Status.queued;
  error = [];
  plan = p.plan;
  menu = [];
  has_sink = false;
  created_at = now;
  last_heartbeat = now;
  last_progress = now;
}

-- The sessions that count against a member, and against an account.
abbrev pub active_for_member : Text → Session → Bool
active_for_member member s = is_active s && s.context.member_user_id == member

abbrev pub active_on_account : Text → Text → Session → Bool
active_on_account provider account_id s =
    is_active s && (s.context.provider == provider && s.context.account_id == account_id)

unfoldable pub put_session : Engine → Session → Engine
put_session e s = record e { sessions = insert s.id s e.sessions }

-- The session enters the table and the session→account index.
unfoldable pub register : Engine → Session → Engine
register e s = record e {
  sessions = insert s.id s e.sessions;
  by_account = add_index (key_of s) s.id e.by_account;
}

-- The deliveries of a play menu up to the first that fails, and whether none did.
unfoldable pub stage_menu : Wiring → Session → List Track → List Effect → List Effect × Bool
stage_menu w s [] done = (done, true)
stage_menu w s (tr ∷ tracks) done =
    let skipped = stage_menu w s tracks done in
    let staged = stage_menu w s tracks (delivered s.id tr ∷ done) in
    if is_empty tr.locations then skipped else if w.deliver s tr then staged else (done, false)

abbrev is_play : Goal → Bool
is_play Goal.play = true
is_play g = false

-- The part of `Start` after admission. It runs once the lock is released; here it is one step with
-- the admission.
unfoldable pub launch : Engine → Wiring → Session → List Track → Engine × Check Session
launch e w queued tracks =
    let running = record queued { status = Status.running } in
    let e' = put_session e running in
    if is_play running.goal && running.has_sink && not (is_empty tracks)
    then (let s = record running { menu = tracks } in
        let (done, complete) = stage_menu w s tracks e'.effects in
        let e'' = put_session e' s in
        if complete
        then (
          record e'' {
            effects = recorded (to_job s) ∷ (if w.announces then menu_ready s.id ∷ done else done);
          },
          passed s,
        )
        else (record e'' { effects = done }, refused unknown))
    else (record e' { effects = recorded (to_job running) ∷ e'.effects }, passed running)

-- Counting and admission, under one lock.
unfoldable pub admit : Engine → Wiring → Session → Prepared → Engine × Check Session
admit e w s p =
    let member_active = count_values (active_for_member s.context.member_user_id) e.sessions in
    let account_active =
      count_values (active_on_account s.context.provider s.context.account_id) e.sessions in
    if at_least member_active (streams e.instance_policy).0
    then (e, refused (quota member_active))
    else if at_least account_active (effective_account_limit p.effective_policy p.cap_set)
    then (e, refused (quota account_active))
    else launch (register e s) w s p.tracks

-- The part of `Start` after its checks: the id is taken and the sink made before admission.
unfoldable pub create : Engine → Wiring → StartRequest → ℕ → Prepared → Engine × Check Session
create e w req now p =
    let e' = record e { seq = suc e.seq } in
    let s = new_session (session_id (suc e.seq)) req now p in
    elim w.new_sink [
      | none ↦ admit e' w s p
      | some make ↦
          if make s p.tracks
          then admit e' w (record s { has_sink = true }) p
          else (e', refused unknown)
    ]

unfoldable pub start : Engine → Wiring → StartRequest → ℕ → Engine × Check Session
start e w req now = elim (prepare e w req) [
  | refused x ↦ (e, refused x)
  | passed p ↦ create e w req now p
]
