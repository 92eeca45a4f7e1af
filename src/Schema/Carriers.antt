-- ===== src/Schema/Carriers.antt =====
-- `ValidateMediaSource` of core/internal/schema/schema.go: what the tracks of a valid manifest are.
use abcmovies.Base.{
  ℕ, ◌≡◌, ◌≢◌, refl, ap, ◌∙◌, Bool, true, false, ◌||◌, List, [], ◌∷◌, Text, Text-discrete, ◌==◌,
  blank, Option, none, some, inl, inr, any, count, contains, In, Option-cases, arith,
}
use abcmovies.Schema.Source.{
  Track, TrackDelivery, MediaSource, per_track, whole_mux, no_items, has_media, validate_track_id,
  track_ids, validate_delivery, validate_track, validate_tracks, carries_locations,
  validate_media_source,
}

-- Whether a track has an id.
abbrev pub has_id : Text → Option Track → Bool
has_id id none = false
has_id id (some t) = t.id == id

-- What the first loop has checked: the tracks are there, named, of one media type, and their ids are
-- new; the ids that it leaves are theirs and the earlier ones.
track_ids-contains :
    (ts : List (Option Track)) (ids all : List Text) (id : Text)
    → track_ids ts ids ≡ some all
    → contains all id ≡ (contains ids id || any (has_id id) ts)
unfolding track_ids validate_track_id contains
track_ids-contains [] ids all id h = ground arith
track_ids-contains (none ∷ ts) ids all id h = absurd (ground arith)
track_ids-contains (some t ∷ ts) ids all id h =
    ground (arith, track_ids-contains ts (t.id ∷ ids) all id)

track_ids-once :
    (ts : List (Option Track)) (ids all : List Text) (id : Text)
    → track_ids ts ids ≡ some all
    → (contains ids id ≡ true → count (has_id id) ts ≡ 0)
      × (any (has_id id) ts ≡ true → count (has_id id) ts ≡ 1)
unfolding track_ids validate_track_id contains
track_ids-once [] ids all id h = (λ k. refl, λ k. absurd (ground arith))
track_ids-once (none ∷ ts) ids all id h = absurd (ground arith)
track_ids-once (some t ∷ ts) ids all id h = ground (arith, track_ids-once ts (t.id ∷ ids) all id)

track_ids-named :
    (ts : List (Option Track)) (ids all : List Text) (t : Track)
    → track_ids ts ids ≡ some all
    → In (some t) ts
    → (blank t.id ≡ false) × (has_media t.media ≡ true)
unfolding track_ids validate_track_id
track_ids-named [] ids all t h i = elim i [ ]
track_ids-named (none ∷ ts) ids all t h i = absurd (ground arith)
track_ids-named (some u ∷ ts) ids all t h (inl e) =
    let same : t ≡ u = ground (arith, e) in
    ground (arith, ap (λ (v : Track). blank v.id) same, ap (λ (v : Track). has_media v.media) same)
track_ids-named (some u ∷ ts) ids all t h (inr i) =
    track_ids-named ts (u.id ∷ ids) all t (ground arith) i

In-validate_tracks :
    (addressable : ℕ) (ids : List Text) (ts : List (Option Track)) (t : Track)
    → validate_tracks addressable ids ts ≡ true
    → In (some t) ts
    → validate_track addressable ids t ≡ true
unfolding validate_tracks
In-validate_tracks addressable ids [] t h i = elim i [ ]
In-validate_tracks addressable ids (none ∷ ts) t h i = absurd (ground arith)
In-validate_tracks addressable ids (some u ∷ ts) t h (inl e) =
    let same : t ≡ u = ground (arith, e) in ap (validate_track addressable ids) same ∙ ground arith
In-validate_tracks addressable ids (some u ∷ ts) t h (inr i) =
    In-validate_tracks addressable ids ts t (ground arith) i

any-has_id :
    (id : Text) (ts : List (Option Track))
    → any (has_id id) ts ≡ true
    → (u : Track) × In (some u) ts × (u.id ≡ id)
any-has_id id [] h = absurd (ground arith)
any-has_id id (none ∷ ts) h = let (u, i, e) = any-has_id id ts h in (u, inr i, e)
any-has_id id (some t ∷ ts) h = elim (Text-discrete t.id id) [
  | yes e ↦ (t, inl refl, e)
  | no other ↦ let (u, i, e) = any-has_id id ts (ground (arith, other)) in (u, inr i, e)
]

In-has_id : (ts : List (Option Track)) (t : Track) → In (some t) ts → any (has_id t.id) ts ≡ true
In-has_id [] t i = elim i [ ]
In-has_id (none ∷ ts) t (inl e) = absurd (ground (arith, e))
In-has_id (none ∷ ts) t (inr i) = In-has_id ts t i
In-has_id (some u ∷ ts) t (inl e) =
    let same : t ≡ u = ground (arith, e) in ground (arith, ap (λ (v : Track). v.id) same)
In-has_id (some u ∷ ts) t (inr i) = ground (arith, In-has_id ts t i)

-- What a valid manifest says of each of its tracks.
pub record IsSound (ms : MediaSource) (t : Track) : Type 0 where
  pub named : blank t.id ≡ false
  pub typed : has_media t.media ≡ true
  pub once : count (has_id t.id) ms.tracks ≡ 1
  -- a carrier is another track of the manifest
  pub carried :
      (d : TrackDelivery)
      → t.delivery ≡ some d
      → blank d.carried_in ≡ false
      → (d.carried_in ≢ t.id) × ((u : Track) × In (some u) ms.tracks × (u.id ≡ d.carried_in))
  -- where tracks are addressed one by one, a delivery is direct; otherwise it is direct or carried
  pub direct :
      (d : TrackDelivery)
      → t.delivery ≡ some d
      → (ms.addressable ≡ per_track → (no_items d.locations ≡ false) × (blank d.carried_in ≡ true))
        × (no_items d.locations ≡ true → blank d.carried_in ≡ false)

validate_track-delivery :
    (addressable : ℕ) (ids : List Text) (t : Track) (d : TrackDelivery)
    → validate_track addressable ids t ≡ true
    → t.delivery ≡ some d
    → validate_delivery addressable t.id d ids ≡ true
unfolding validate_track
validate_track-delivery addressable ids t d h e = ground (arith, e)

carried_in-contains :
    (addressable : ℕ) (ids : List Text) (id : Text) (d : TrackDelivery)
    → validate_delivery addressable id d ids ≡ true
    → blank d.carried_in ≡ false
    → (d.carried_in ≢ id) × (contains ids d.carried_in ≡ true)
unfolding validate_delivery
carried_in-contains addressable ids id d h b = ground (arith, b)

locations-direct :
    (addressable : ℕ) (ids : List Text) (id : Text) (d : TrackDelivery)
    → validate_delivery addressable id d ids ≡ true
    → (addressable ≡ per_track → (no_items d.locations ≡ false) × (blank d.carried_in ≡ true))
      × (no_items d.locations ≡ true → blank d.carried_in ≡ false)
unfolding validate_delivery
locations-direct addressable ids id d h = ground arith

checked :
    (ms : MediaSource)
    → validate_media_source (some ms) ≡ true
    → (ids : List Text) × (track_ids ms.tracks [] ≡ some ids)
      × (validate_tracks ms.addressable ids ms.tracks ≡ true)
      × (ms.addressable ≡ whole_mux → any carries_locations ms.tracks ≡ true)
unfolding validate_media_source
checked ms h = elim (Option-cases (track_ids ms.tracks [])) [
  | inl e ↦ absurd (ground (arith, e))
  | inr (ids, e) ↦ (ids, e, ground (arith, e), ground (arith, e))
]

nothing_before :
    (ids : List Text) (ts : List (Option Track)) (id : Text)
    → track_ids ts [] ≡ some ids
    → contains ids id ≡ true
    → any (has_id id) ts ≡ true
unfolding contains
nothing_before ids ts id e is = ground (arith, track_ids-contains ts [] ids id e)

-- Every track of a manifest that passes ValidateMediaSource is there once, has a media type, and is
-- carried in another track of the manifest if in any; where tracks are addressed one by one its
-- delivery is direct, and otherwise direct or carried. A muxed manifest has a track with locations.
pub validate_media_source-IsSound :
    (ms : MediaSource)
    → validate_media_source (some ms) ≡ true
    → ((t : Track) → In (some t) ms.tracks → IsSound ms t)
      × (ms.addressable ≡ whole_mux → any carries_locations ms.tracks ≡ true)
validate_media_source-IsSound ms h =
    let (ids, e, valid, muxed) = checked ms h in
    (
      λ t i.
          let (named, typed) = track_ids-named ms.tracks [] ids t e i in
          let ok = In-validate_tracks ms.addressable ids ms.tracks t valid i in
          record {
            named = named;
            typed = typed;
            once = (track_ids-once ms.tracks [] ids t.id e).1 (In-has_id ms.tracks t i);
            carried = λ d there b.
                let (other, is) =
                  carried_in-contains ms.addressable ids t.id d
                    (validate_track-delivery ms.addressable ids t d ok there) b in
                (
                  other,
                  any-has_id d.carried_in ms.tracks
                      (nothing_before ids ms.tracks d.carried_in e is),
                );
            direct = λ d there.
                locations-direct ms.addressable ids t.id d
                  (validate_track-delivery ms.addressable ids t d ok there);
          },
      muxed,
    )
