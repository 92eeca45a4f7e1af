-- ===== src/Tests/Delivery.antt =====
-- core/internal/delivery on one engine with one provider.
use abcmovies.Base.{
  ℕ, ◌≤◌, ◌≡◌, refl, ◌≢◌, ◌↔◌, inl, inr, true, false, List, [], ◌∷◌, Text, text, Text-discrete,
  some, none, decimal, lookup, insert, count_values, text_key, contains,
}
use abcmovies.Base.Int.{pos}
use abcmovies.Policy.Atoi.{atoi}
use abcmovies.Policy.Limits.{
  defaults, streams, effective_account_limit, with_overlay, parse_instance, validate, accepts,
}
use abcmovies.Delivery.Manifest.{
  Track, MediaSource, SourceType, Seekable, Addressable, validate_manifest, drm_free,
}
use abcmovies.Delivery.Pipeline.{Goal, select_pipeline, validate_plan, StepKind}
use abcmovies.Delivery.Session.{
  Status, Session, Engine, AccountKey-discrete, new, session_id, index_of, add_index, remove_index,
  to_job, unknown, key_of, account_key_of, is_active,
}
use abcmovies.Delivery.Start.{
  Wiring, StartRequest, Prepared, passed, refused, prepare, new_session, start, create, admit,
  launch, register, put_session, stage_menu, resolve_constraints, active_for_member,
  active_on_account,
}
use abcmovies.Delivery.Ending
use abcmovies.Delivery.Liveness
use abcmovies.Delivery.Engine.{Call, step, run}
use abcmovies.Delivery.Capacity.{run-new-capped}
use abcmovies.Delivery.Invariant.{Consistent}
use abcmovies.Delivery.Consistency.{run-new-Consistent}
use abcmovies.Delivery.Revocation.{revoke_account_lem, revoke-complete}
use abcmovies.Delivery.Eviction.{apply_account_cap_lem}
use abcmovies.Delivery.Watchdog.{IsLive, sweep_lem}
use abcmovies.Delivery.Admission.{start-passed}
use abcmovies.Delivery.Quota.{SinkIsMade, IsQuota, HasRoom, start-IsQuota}
use abcmovies.Delivery.Phantom.{IsPhantom, start-IsPhantom}
use abcmovies.Tests.Policy.{formats}

program : Unit {0}
unfolding Text-discrete AccountKey-discrete parse_instance validate accepts atoi streams
    with_overlay effective_account_limit validate_manifest drm_free select_pipeline validate_plan
    new session_id decimal index_of add_index remove_index to_job prepare new_session start create
    admit launch register put_session stage_menu resolve_constraints step run lookup insert
    count_values contains
program = tt

abbrev film_track : Track
film_track = record { id = text "v"; locations = text "https://p/1" ∷ []; has_drm = false }

abbrev film : MediaSource
film = record {
  source_type = SourceType.static;
  seekable = Seekable.full;
  addressable = Addressable.whole_mux;
  tracks = film_track ∷ [];
}

abbrev pub wiring : Wiring
wiring = record {
  source_resolver = some (λ provider account native. some (some film));
  account_constraints = none;
  new_sink = some (λ s tracks. true);
  deliver = λ s tr. true;
  finalize = λ s. none;
  announces = true;
}

abbrev request : StartRequest
request = record {
  goal = Goal.play;
  member_user_id = text "ada";
  provider = text "jellyfin";
  account_id = text "acc";
  native_id = text "7";
  sink = text "device";
  selected_target = [];
  container = [];
}

abbrev pub fresh : Engine
fresh = new defaults 1000 100 50

abbrev one : Engine
one = (start fresh wiring request 10).0

defaults_parse : parse_instance formats [] ≡ inr defaults
unfolding program
defaults_parse = refl

abbrev first_id : Text
first_id = text "del-1"

-- The session of `request`, as `start` leaves it.
abbrev pub first : Session
first = record {
  id = first_id;
  goal = Goal.play;
  context = record {
    provider = text "jellyfin";
    account_id = text "acc";
    member_user_id = text "ada";
    sink = text "device";
    selected_target = [];
    container = [];
    policy = defaults;
    provider_cap = [];
  };
  status = Status.running;
  error = [];
  plan = record { kind = StepKind.passthrough; container = none } ∷ [];
  menu = film.tracks;
  has_sink = true;
  created_at = 10;
  last_heartbeat = 10;
  last_progress = 10;
}

one_started : (start fresh wiring request 10).1 ≡ passed first
unfolding program
one_started = refl

one_found : lookup first_id one.sessions ≡ some first
unfolding program
one_found = refl

one-Consistent : Consistent one
unfolding run step
one-Consistent = run-new-Consistent defaults 1000 100 50 ((wiring, 10, Call.starts request) ∷ [])

run-new-capped_example :
    (limit : ℕ) × (1 ≤ limit)
    × (streams defaults ≡ (pos limit, true))
    × ((calls : List (Wiring × ℕ × Call)) (member : Text)
        → count_values (active_for_member member) (run fresh calls).sessions ≤ limit)
run-new-capped_example = run-new-capped formats [] defaults 1000 100 50 defaults_parse

run-new-Consistent_example :
    Consistent (run fresh ((wiring, 10, Call.starts request) ∷ (wiring, 20, Call.sweeps) ∷ []))
run-new-Consistent_example =
    run-new-Consistent defaults 1000 100 50
      ((wiring, 10, Call.starts request) ∷ (wiring, 20, Call.sweeps) ∷ [])

abbrev after_revocation : Engine
after_revocation = (Ending.revoke_account one (text "jellyfin") (text "acc") (text "ada")).0

revoke_account_lem_example :
    (key_of first ≡ account_key_of (text "jellyfin") (text "acc") (text "ada")
      → is_active first ≡ true
      → lookup first_id after_revocation.sessions ≡ some (Ending.ended Ending.revoked_reason first))
    × (key_of first ≢ account_key_of (text "jellyfin") (text "acc") (text "ada")
        → lookup first_id after_revocation.sessions ≡ some first)
revoke_account_lem_example =
    revoke_account_lem one (text "jellyfin") (text "acc") (text "ada") first_id first one-Consistent
      one_found

abbrev after_removal : Engine
after_removal = (Ending.revoke_all_on_account one (text "acc")).0

abbrev narrowed : Engine
narrowed = (Ending.revoke_others_on_account one (text "jellyfin") (text "acc") (text "bob" ∷ [])).0

abbrev finished : Engine
finished = (Ending.complete one wiring first_id).0

revoke-complete_example :
    (lookup first_id finished.sessions ≡ some (Ending.completed wiring first))
    × ((Ending.completed wiring first).status ≡ Status.done)
    × (lookup first_id
          (Ending.revoke_account finished (text "jellyfin") (text "acc") (text "ada")).0.sessions
        ≡ some (Ending.ended Ending.revoked_reason (Ending.completed wiring first)))
revoke-complete_example = revoke-complete one wiring first_id first one-Consistent one_found refl

apply_account_cap_lem_example :
    (count_values
        (active_on_account (text "jellyfin") (text "acc"))
        (Ending.apply_account_cap one wiring (text "jellyfin") (text "acc") true).0.sessions
      ≤ 3)
    × (Ending.apply_account_cap one wiring (text "jellyfin") (text "acc") false ≡ (one, passed 0))
unfolding program
apply_account_cap_lem_example =
    apply_account_cap_lem one wiring (text "jellyfin") (text "acc") ([], []) 3 refl refl

sweep_lem_example :
    (is_active first ≡ true
      → IsLive one 500 first
      → lookup first_id (Liveness.sweep one 500).sessions ≡ some first)
    × (is_active first ≡ true
        → ¬ IsLive one 500 first
        → lookup first_id (Liveness.sweep one 500).sessions ≡ none)
    × (is_active first ≡ false → lookup first_id (Liveness.sweep one 500).sessions ≡ some first)
sweep_lem_example = sweep_lem one 500 first_id first one-Consistent one_found

-- A member whose only stream is taken.
abbrev crowded : Engine
crowded = record one { instance_policy = (text "concurrentStreams", text "1") ∷ [] }

abbrev prepared : Prepared
prepared = record {
  tracks = film.tracks;
  plan = first.plan;
  effective_policy = defaults;
  cap_set = [];
}

abbrev crowded_plan : Prepared
crowded_plan = record prepared { effective_policy = crowded.instance_policy }

crowded_prepared : prepare crowded wiring request ≡ passed crowded_plan
unfolding program
crowded_prepared = refl

sink_is_made : SinkIsMade crowded wiring request 20 crowded_plan
sink_is_made = inr (λ s tracks. true, refl, refl)

start-IsQuota_example :
    (IsQuota (start crowded wiring request 20).1 ↔ (¬ HasRoom crowded request crowded_plan))
    × (IsQuota (start crowded wiring request 20).1
        → (start crowded wiring request 20).0.sessions ≡ crowded.sessions)
start-IsQuota_example =
    start-IsQuota crowded wiring request 20 crowded_plan crowded_prepared sink_is_made

start-passed_example :
    (lookup first_id one.sessions ≡ some first)
    × (first.status ≡ Status.running)
    × (key_of first ≡ account_key_of (text "jellyfin") (text "acc") (text "ada"))
    × ((limit : ℕ)
        → (streams fresh.instance_policy).0 ≡ pos limit
        → count_values (active_for_member (text "ada")) one.sessions ≤ limit)
    × ((limit : ℕ)
        → effective_account_limit defaults [] ≡ pos limit
        → count_values (active_on_account (text "jellyfin") (text "acc")) one.sessions ≤ limit)
unfolding program
start-passed_example = start-passed fresh wiring request 10 prepared first refl refl

-- A sink that refuses every track.
abbrev broken : Wiring
broken = record wiring { deliver = λ s tr. false }

start-IsPhantom_example :
    ((start fresh broken request 10).1 ≡ refused unknown)
    × IsPhantom fresh (start fresh broken request 10).0 request
unfolding program
start-IsPhantom_example =
    start-IsPhantom fresh broken request 10 prepared (λ s tracks. true) film_track refl refl refl
      refl refl refl refl (inl refl) refl (λ s. refl)
