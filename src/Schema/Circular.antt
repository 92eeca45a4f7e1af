-- ===== src/Schema/Circular.antt =====
-- `ValidateMediaSource` of core/internal/schema/schema.go: a valid manifest can hold tracks that
-- carry each other.
use abcmovies.Base.{
  ℕ, zero, suc, ◌≡◌, ◌≢◌, refl, ◌∙◌, true, false, List, [], ◌∷◌, Text, ◌==◌, blank, if◌then◌else◌,
  Option, none, some, contains, arith,
}
use abcmovies.Schema.Source.{
  Track, MediaSource, video, whole_mux, no_items, has_media, validate_track_id, track_ids,
  validate_delivery, validate_track, validate_tracks, validate_media_source,
}

-- The track of an id.
abbrev pub find_track : Text → List (Option Track) → Option Track
find_track id [] = none
find_track id (none ∷ ts) = find_track id ts
find_track id (some t ∷ ts) = if t.id == id then some t else find_track id ts

-- The locations that are found from a track on by at most so many steps to a carrier.
unfoldable pub locations_from : ℕ → List (Option Track) → Text → List Text
locations_from zero ts id = []
locations_from (suc n) ts id = elim (find_track id ts) [
  | none ↦ []
  | some t ↦ elim t.delivery [
    | none ↦ []
    | some d ↦
        let rest = locations_from n ts d.carried_in in
        if no_items d.locations then rest else d.locations
  ]
]

abbrev pub carried_track : Text → Text → Track
carried_track id carrier = record {
  id = id;
  media = video;
  delivery = some (record { locations = []; carried_in = carrier });
}

abbrev pub direct_track : Text → Text → Track
direct_track id url = record {
  id = id;
  media = video;
  delivery = some (record { locations = url ∷ []; carried_in = [] });
}

-- A muxed manifest of a track with a location and two that are carried in each other.
abbrev pub circular : Text → Text → Text → Text → MediaSource
circular a b c url = record {
  source_type = 1;
  seekable = 1;
  dvr_window = false;
  addressable = whole_mux;
  tracks = some (direct_track c url) ∷ some (carried_track a b) ∷ some (carried_track b a) ∷ [];
}

circular-lost :
    (n : ℕ) (a b c url : Text)
    → a ≢ b
    → a ≢ c
    → b ≢ c
    → (locations_from n (circular a b c url).tracks a ≡ [])
      × (locations_from n (circular a b c url).tracks b ≡ [])
unfolding locations_from
circular-lost zero a b c url ab ac bc = (refl, refl)
circular-lost (suc n) a b c url ab ac bc = ground (arith, circular-lost n a b c url ab ac bc)

track_ids-new :
    (t : Track) (ts : List (Option Track)) (ids : List Text)
    → blank t.id ≡ false
    → contains ids t.id ≡ false
    → has_media t.media ≡ true
    → track_ids (some t ∷ ts) ids ≡ track_ids ts (t.id ∷ ids)
unfolding track_ids validate_track_id
track_ids-new t ts ids n c m = ground (arith, n, c, m)

circular-track_ids :
    (a b c url : Text)
    → blank a ≡ false
    → blank b ≡ false
    → blank c ≡ false
    → a ≢ b
    → a ≢ c
    → b ≢ c
    → track_ids (circular a b c url).tracks [] ≡ some (b ∷ a ∷ c ∷ [])
unfolding track_ids contains
circular-track_ids a b c url na nb nc ab ac bc =
    let last : List (Option Track) = some (carried_track b a) ∷ [] in
    track_ids-new (direct_track c url) (some (carried_track a b) ∷ last) [] nc refl refl
    ∙ track_ids-new (carried_track a b) last (c ∷ []) na (ground (arith, ac)) refl
    ∙ track_ids-new (carried_track b a) [] (a ∷ c ∷ []) nb (ground (arith, ab, bc)) refl

circular-valid :
    (a b c url : Text)
    → blank a ≡ false
    → blank b ≡ false
    → blank c ≡ false
    → a ≢ b
    → a ≢ c
    → b ≢ c
    → validate_media_source (some (circular a b c url)) ≡ true
unfolding validate_media_source validate_tracks validate_track validate_delivery contains blank
circular-valid a b c url na nb nc ab ac bc =
    rw (circular-track_ids a b c url na nb nc ab ac bc) (ground arith)

-- ValidateMediaSource accepts a muxed manifest in which two tracks are carried in each other, so that
-- no number of steps from one of them leads to a location.
pub validate_media_source-circular :
    (n : ℕ) (a b c url : Text)
    → blank a ≡ false
    → blank b ≡ false
    → blank c ≡ false
    → a ≢ b
    → a ≢ c
    → b ≢ c
    → (validate_media_source (some (circular a b c url)) ≡ true)
      × (locations_from n (circular a b c url).tracks a ≡ [])
      × (locations_from n (circular a b c url).tracks b ≡ [])
validate_media_source-circular n a b c url na nb nc ab ac bc =
    let (la, lb) = circular-lost n a b c url ab ac bc in
    (circular-valid a b c url na nb nc ab ac bc, la, lb)
