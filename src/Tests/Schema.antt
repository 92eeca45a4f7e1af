-- ===== src/Tests/Schema.antt =====
-- Concrete messages for the theorems on core/internal/schema.
use abcmovies.Base.{
  ◌≡◌, refl, [], ◌∷◌, text, Text-discrete, blank, contains, some, none, any, In, true, false, arith,
}
use abcmovies.Schema.Source.{
  Track, MediaSource, video, subtitle, whole_mux, per_track, validate_media_source, track_ids,
  validate_track_id, validate_tracks, validate_track, validate_delivery, validate_subtitle_track,
  carries_locations,
}
use abcmovies.Schema.Carriers.{IsSound, validate_media_source-IsSound}
use abcmovies.Schema.Circular.{circular, locations_from, validate_media_source-circular}
use abcmovies.Schema.Jobs.{
  Job, validate_job, validate_delivery_context, validate_awaiting_action, passthrough,
  status_awaiting_action,
}
use abcmovies.Schema.Events.{validate_event_envelope, addressed, carries_payload}
use abcmovies.Schema.Entries.{
  validate_library_entry, validate_coverage, validate_coverage_row, validate_seasons,
  validate_identities, validate_external_identity,
}
use abcmovies.Enrichment.Merge.{has_prefix}

program : Unit {0}
unfolding Text-discrete blank contains validate_media_source track_ids validate_track_id
    validate_tracks validate_track validate_delivery validate_subtitle_track validate_job
    validate_delivery_context validate_awaiting_action validate_event_envelope addressed
    carries_payload validate_library_entry validate_coverage validate_coverage_row validate_seasons
    validate_identities validate_external_identity has_prefix
program = tt

-- A stream, and subtitles that are carried in it.
abbrev stream : Track
stream = record {
  id = text "v";
  media = video;
  delivery = some (record { locations = text "http://x/v" ∷ []; carried_in = [] });
}

abbrev words : Track
words = record {
  id = text "s";
  media = subtitle (record { format = text "vtt"; role = 0; forced = true });
  delivery = some (record { locations = []; carried_in = text "v" });
}

abbrev muxed : MediaSource
muxed = record {
  source_type = 1;
  seekable = 2;
  dvr_window = false;
  addressable = whole_mux;
  tracks = some stream ∷ some words ∷ [];
}

muxed-valid : validate_media_source (some muxed) ≡ true
unfolding program
muxed-valid = refl

-- Carried tracks have no place where tracks are addressed one by one.
split-invalid : validate_media_source (some (record muxed { addressable = per_track })) ≡ false
unfolding program
split-invalid = refl

validate_media_source-IsSound_example :
    ((t : Track) → In (some t) muxed.tracks → IsSound muxed t)
    × (whole_mux ≡ whole_mux → any carries_locations muxed.tracks ≡ true)
validate_media_source-IsSound_example = validate_media_source-IsSound muxed muxed-valid

validate_media_source-circular_example :
    (validate_media_source (some (circular (text "a") (text "b") (text "c") (text "http://x")))
      ≡ true)
    × (locations_from 7
          (circular (text "a") (text "b") (text "c") (text "http://x")).tracks
          (text "a")
        ≡ [])
    × (locations_from 7
          (circular (text "a") (text "b") (text "c") (text "http://x")).tracks
          (text "b")
        ≡ [])
unfolding blank
validate_media_source-circular_example =
    validate_media_source-circular 7 (text "a") (text "b") (text "c") (text "http://x") refl refl
      refl (λ e. ground (arith, e)) (λ e. ground (arith, e)) (λ e. ground (arith, e))

abbrev waiting_job : Job
waiting_job = record {
  id = text "j";
  kind = 2;
  status = status_awaiting_action;
  progress = some 100;
  owner_user_id = text "ann";
  delivery = none;
  awaiting_action = some (record {
    kind = passthrough (record { adapter = text "tmdb"; descriptor = text "{}" });
    actor_user_id = text "ann";
  });
  error = [];
}

waiting_job-valid : validate_job (some waiting_job) ≡ true
unfolding program
waiting_job-valid = refl

over_100 : validate_job (some (record waiting_job { progress = some 101 })) ≡ false
unfolding program
over_100 = refl

entry_without_via :
    validate_library_entry (
      some (record {
        id = text "le_1";
        kind = 1;
        coverage =
            (text "p:1", some (record { present = true; seasons = []; verdict = 2; via = [] }))
            ∷ [];
        external_identities = [];
      }))
    ≡ false
unfolding program
entry_without_via = refl
