-- ===== src/Schema/Source.antt =====
-- `ValidateMediaSource` of core/internal/schema/schema.go. A wire enum is its number, a pointer is an
-- option, and what the checks do not read is left out of the messages.
use abcmovies.Base.{
  ℕ, Bool, true, false, not, ◌&&◌, ◌||◌, List, [], ◌∷◌, Text, ◌==◌, eqb, blank, if◌then◌else◌,
  Option, none, some, any, contains,
}

pub record SubtitleTrack : Type 0 where
  pub format : Text
  pub role : ℕ
  pub forced : Bool

-- The oneof `media`.
pub data Media : Type 0 where
  no_media : Media
  video : Media
  audio : Media
  subtitle : SubtitleTrack → Media

pub record TrackDelivery : Type 0 where
  pub locations : List Text
  pub carried_in : Text

pub record Track : Type 0 where
  pub id : Text
  pub media : Media
  pub delivery : Option TrackDelivery

-- `dvr_window` holds whether the duration is there.
pub record MediaSource : Type 0 where
  pub source_type : ℕ
  pub seekable : ℕ
  pub dvr_window : Bool
  pub addressable : ℕ
  pub tracks : List (Option Track)

abbrev pub dvr_window : ℕ
dvr_window = 3

abbrev pub per_track : ℕ
per_track = 1

abbrev pub whole_mux : ℕ
whole_mux = 2

abbrev pub role_subtitle : ℕ
role_subtitle = 1

abbrev pub no_items {ℓ} : {A : Type ℓ} → List A → Bool
no_items [] = true
no_items (x ∷ xs) = false

abbrev pub has_media : Media → Bool
has_media no_media = false
has_media video = true
has_media audio = true
has_media (subtitle s) = true

-- The ids after `validateTrackID`, none where it fails.
unfoldable pub validate_track_id : Option Track → List Text → Option (List Text)
validate_track_id none ids = none
validate_track_id (some t) ids =
    if blank t.id || contains ids t.id
    then none
    else if has_media t.media
    then some (t.id ∷ ids)
    else none

-- The first loop.
unfoldable pub track_ids : List (Option Track) → List Text → Option (List Text)
track_ids [] ids = some ids
track_ids (t ∷ ts) ids = elim (validate_track_id t ids) [
  | none ↦ none
  | some more ↦ track_ids ts more
]

unfoldable pub validate_subtitle_track : SubtitleTrack → Option TrackDelivery → Bool
validate_subtitle_track sub delivery =
    let role = if eqb sub.role 0 then role_subtitle else sub.role in
    if sub.forced && not (eqb role role_subtitle)
    then false
    else elim delivery [ none ↦ blank sub.format | some d ↦ true ]

unfoldable pub validate_delivery : ℕ → Text → TrackDelivery → List Text → Bool
validate_delivery addressable id d ids =
    if not (blank d.carried_in) && (d.carried_in == id || not (contains ids d.carried_in))
    then false
    else if eqb addressable per_track
    then blank d.carried_in && not (no_items d.locations)
    else not (no_items d.locations && blank d.carried_in)

-- One round of the second loop.
unfoldable pub validate_track : ℕ → List Text → Track → Bool
validate_track addressable ids t =
    let delivered : Bool = elim t.delivery [
      | none ↦ true
      | some d ↦ validate_delivery addressable t.id d ids
    ] in
    elim t.media [
      | subtitle sub ↦ validate_subtitle_track sub t.delivery && delivered
      | other ↦ elim t.delivery [ none ↦ false | some d ↦ delivered ]
    ]

-- The second loop. The first one has refused a nil track.
unfoldable pub validate_tracks : ℕ → List Text → List (Option Track) → Bool
validate_tracks addressable ids [] = true
validate_tracks addressable ids (none ∷ ts) = false
validate_tracks addressable ids (some t ∷ ts) =
    validate_track addressable ids t && validate_tracks addressable ids ts

-- `hasLocationCarrier` for one track.
abbrev pub carries_locations : Option Track → Bool
carries_locations none = false
carries_locations (some t) = elim t.delivery [ none ↦ false | some d ↦ not (no_items d.locations) ]

unfoldable pub validate_media_source : Option MediaSource → Bool
validate_media_source none = false
validate_media_source (some ms) =
    if eqb ms.source_type 0 || (eqb ms.seekable 0 || eqb ms.addressable 0)
    then false
    else if eqb ms.seekable dvr_window && not ms.dvr_window
    then false
    else if no_items ms.tracks
    then false
    else elim (track_ids ms.tracks []) [
      | none ↦ false
      | some ids ↦
          validate_tracks ms.addressable ids ms.tracks
          && (not (eqb ms.addressable whole_mux) || any carries_locations ms.tracks)
    ]
