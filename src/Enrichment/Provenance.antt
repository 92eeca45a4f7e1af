-- ===== src/Enrichment/Provenance.antt =====
-- core/internal/enrichment/merge.go: every path of a merged record.
use abcmovies.Base.{
  ℕ, ◌≡◌, refl, ◌∙◌, Bool, true, false, ◌||◌, List, [], ◌∷◌, Text, text, ◌==◌, text_key, lookup,
  Text-discrete, arith, any-sort_strings,
}
use abcmovies.Enrichment.Merge.{
  EnrichmentSource, TitleMetadata, Contribution, typed_fields, take_over, merge_fields, extra_path,
  keys_of, sorted_keys, merged_record,
}
use abcmovies.Enrichment.Ownership.{
  mine, claimed, claims_field, claims_extra, WritesOnly, KeepSource, lookup-merge_fields,
  read-merge_fields, lookup-merge_extras, read-merge_extras,
}

-- What a contribution claims: the fields and extra keys that it populates.
unfoldable pub claims : TitleMetadata → Text → Bool
claims src path = claims_field path (typed_fields src) || claims_extra path (keys_of src.extra)

pub typed_fields-KeepSource : (src : TitleMetadata) → KeepSource (typed_fields src)
unfolding typed_fields
typed_fields-KeepSource src = (
  λ d. refl,
  (
    λ d. refl,
    (
      λ d. refl,
      (
        λ d. refl,
        (
          λ d. refl,
          (
            λ d. refl,
            (
              λ d. refl,
              (λ d. refl, (λ d. refl, (λ d. refl, (λ d. refl, (λ d. refl, (λ d. refl, tt)))))),
            ),
          ),
        ),
      ),
    ),
  ),
)

-- The paths that both kinds of title have, their strings, and their values.
pub data BaseField : Type 0 where
  base_title : BaseField
  base_year : BaseField
  base_description : BaseField
  base_poster_url : BaseField
  base_rating : BaseField
  base_content_rating : BaseField
  base_genres : BaseField
  base_original_language : BaseField
  base_cast : BaseField
  base_directors : BaseField

pub data Value : Type 0 where
  word : Text → Value
  number : ℕ → Value
  texts : List Text → Value

abbrev pub base_path : BaseField → Text
base_path base_title = text "base.title"
base_path base_year = text "base.year"
base_path base_description = text "base.description"
base_path base_poster_url = text "base.poster_url"
base_path base_rating = text "base.rating"
base_path base_content_rating = text "base.content_rating"
base_path base_genres = text "base.genres"
base_path base_original_language = text "base.original_language"
base_path base_cast = text "base.cast"
base_path base_directors = text "base.directors"

abbrev pub read_base : BaseField → TitleMetadata → Value
read_base base_title m = word m.title
read_base base_year m = number m.year
read_base base_description m = word m.description
read_base base_poster_url m = word m.poster_url
read_base base_rating m = number m.rating
read_base base_content_rating m = word m.content_rating
read_base base_genres m = texts m.genres
read_base base_original_language m = word m.original_language
read_base base_cast m = texts m.cast
read_base base_directors m = texts m.directors

typed_fields-WritesOnly :
    (b : BaseField) (src : TitleMetadata)
    → WritesOnly (read_base b) (base_path b) (read_base b src) (typed_fields src)
unfolding typed_fields Text-discrete
typed_fields-WritesOnly base_title src = ground arith
typed_fields-WritesOnly base_year src = ground arith
typed_fields-WritesOnly base_description src = ground arith
typed_fields-WritesOnly base_poster_url src = ground arith
typed_fields-WritesOnly base_rating src = ground arith
typed_fields-WritesOnly base_content_rating src = ground arith
typed_fields-WritesOnly base_genres src = ground arith
typed_fields-WritesOnly base_original_language src = ground arith
typed_fields-WritesOnly base_cast src = ground arith
typed_fields-WritesOnly base_directors src = ground arith

-- The claims of the extra keys, and of the paths of both loops.
pub claims_extra-sorted_keys :
    (p : Text) (extra : List (Text × Text))
    → claims_extra p (sorted_keys extra) ≡ claims_extra p (keys_of extra)
unfolding sorted_keys
claims_extra-sorted_keys p extra = any-sort_strings (λ key. extra_path key == p) (keys_of extra)

pub take_over-mine : (c : Contribution) (now : ℕ) → take_over (mine c now) c ≡ true
unfolding take_over
take_over-mine c now = ground arith

-- The provenance after a merge into a record: a path that the contribution claims is the
-- contributor's now, where nobody owned it, the contributor did, or a catalogue takes it over from a
-- provider; every other path has the entry that it had.
pub lookup-merged_record :
    (cur src : TitleMetadata) (c : Contribution) (now : ℕ) (p : Text)
    → lookup p (merged_record cur src c now).source
      ≡ claimed (claims src p) c (lookup p cur.source) (mine c now) (lookup p cur.source)
unfolding merged_record claims
lookup-merged_record cur src c now p = ground (
  arith,
  lookup-merge_extras (sorted_keys src.extra) src.extra (merge_fields (typed_fields src) cur c now)
      c now p,
  lookup-merge_fields (typed_fields src) cur c now p (typed_fields-KeepSource src),
  claims_extra-sorted_keys p src.extra,
  take_over-mine c now,
)

base_path-extra : (b : BaseField) (key : Text) → (extra_path key == base_path b) ≡ false
unfolding extra_path
base_path-extra base_title key = ground arith
base_path-extra base_year key = ground arith
base_path-extra base_description key = ground arith
base_path-extra base_poster_url key = ground arith
base_path-extra base_rating key = ground arith
base_path-extra base_content_rating key = ground arith
base_path-extra base_genres key = ground arith
base_path-extra base_original_language key = ground arith
base_path-extra base_cast key = ground arith
base_path-extra base_directors key = ground arith

claims_extra-base : (b : BaseField) (ks : List Text) → claims_extra (base_path b) ks ≡ false
claims_extra-base b [] = refl
claims_extra-base b (key ∷ ks) = ground (arith, base_path-extra b key, claims_extra-base b ks)

-- The value of a field does not lie in the two maps.
read_base-blind :
    (b : BaseField) (m : TitleMetadata) (e : List (Text × Text))
    (s : List (Text × EnrichmentSource))
    → read_base b (record m { extra = e; source = s }) ≡ read_base b m
read_base-blind base_title m e s = refl
read_base-blind base_year m e s = refl
read_base-blind base_description m e s = refl
read_base-blind base_poster_url m e s = refl
read_base-blind base_rating m e s = refl
read_base-blind base_content_rating m e s = refl
read_base-blind base_genres m e s = refl
read_base-blind base_original_language m e s = refl
read_base-blind base_cast m e s = refl
read_base-blind base_directors m e s = refl

-- What a merge does to the path of a field that films and series share.
pub read_base-merged_record :
    (b : BaseField) (cur src : TitleMetadata) (c : Contribution) (now : ℕ)
    → read_base b (merged_record cur src c now)
      ≡ claimed
          (claims src (base_path b))
          c
          (lookup (base_path b) cur.source)
          (read_base b src)
          (read_base b cur)
unfolding merged_record claims
read_base-merged_record b cur src c now =
    read-merge_extras (read_base b) (sorted_keys src.extra) src.extra
      (merge_fields (typed_fields src) cur c now) c now (read_base-blind b)
    ∙ ground (
      arith,
      read-merge_fields (read_base b) (read_base b src) (typed_fields src) cur c now (base_path b)
          (typed_fields-KeepSource src) (typed_fields-WritesOnly b src)
          (λ m s. read_base-blind b m m.extra s),
      claims_extra-base b (keys_of src.extra),
    )
