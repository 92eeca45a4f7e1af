-- ===== src/Enrichment/Merged.antt =====
-- core/internal/enrichment/merge.go: what a merge makes of each path, and the two kinds of title in one variant.
use abcmovies.Base.{
  ℕ, ◌≡◌, refl, ap, ◌∙◌, Bool, true, false, Option, ◌↔◌, List, [], ◌∷◌, Text, text, ◌==◌, blank,
  some, ◌⊎◌, inl, inr, text_key, lookup, Text-discrete, any, All, arith, any-sort_strings,
}
use abcmovies.Enrichment.Merge.{
  EnrichmentSource, TitleMetadata, Contribution, TypedField, typed_fields, merge_fields, extra_path,
  keys_of, sorted_keys, value_at, merged_record, total_seasons, total_episodes, runtime_minutes,
}
use abcmovies.Enrichment.Ownership.{
  mine, claimed, claims_field, claims_extra, WritesOnly, lookup-merge_fields, read-merge_fields,
  read-merge_extras, extra-merge_extras,
}
use abcmovies.Enrichment.Merge.{merge, take_over}
use abcmovies.Enrichment.Claiming.{MayTake, take_over_iff}
use abcmovies.Enrichment.Provenance.{
  claims, BaseField, base_path, read_base, typed_fields-KeepSource, lookup-merged_record,
  read_base-merged_record,
}

-- The two numbers of a series, which stand in one variant.
pub data Half : Type 0 where
  seasons : Half
  episodes : Half

abbrev pub half_path : Half → Text
half_path seasons = text "series.total_seasons"
half_path episodes = text "series.total_episodes"

abbrev pub read_half : Half → TitleMetadata → ℕ
read_half seasons m = total_seasons m.kind_specific
read_half episodes m = total_episodes m.kind_specific

-- The contribution has no runtime of a film.
abbrev pub NoFilm : TitleMetadata → Type 0
NoFilm src = runtime_minutes src.kind_specific ≡ 0

half-WritesOnly :
    (h : Half) (src : TitleMetadata)
    → NoFilm src
    → WritesOnly (read_half h) (half_path h) (read_half h src) (typed_fields src)
unfolding typed_fields Text-discrete
half-WritesOnly seasons src h = ground arith
half-WritesOnly episodes src h = ground arith

half-extra : (h : Half) (key : Text) → (extra_path key == half_path h) ≡ false
unfolding extra_path
half-extra seasons key = ground arith
half-extra episodes key = ground arith

pub claims_extra-half : (h : Half) (ks : List Text) → claims_extra (half_path h) ks ≡ false
claims_extra-half h [] = refl
claims_extra-half h (key ∷ ks) = ground (arith, half-extra h key, claims_extra-half h ks)

pub half-blind :
    (h : Half) (m : TitleMetadata) (e : List (Text × Text)) (s : List (Text × EnrichmentSource))
    → read_half h (record m { extra = e; source = s }) ≡ read_half h m
half-blind seasons m e s = refl
half-blind episodes m e s = refl

read_half-merged_record :
    (h : Half) (cur src : TitleMetadata) (c : Contribution) (now : ℕ)
    → NoFilm src
    → read_half h (merged_record cur src c now)
      ≡ claimed
          (claims src (half_path h))
          c
          (lookup (half_path h) cur.source)
          (read_half h src)
          (read_half h cur)
unfolding merged_record claims
read_half-merged_record h cur src c now film =
    read-merge_extras (read_half h) (sorted_keys src.extra) src.extra
      (merge_fields (typed_fields src) cur c now) c now (half-blind h)
    ∙ ground (
      arith,
      read-merge_fields (read_half h) (read_half h src) (typed_fields src) cur c now (half_path h)
          (typed_fields-KeepSource src) (half-WritesOnly h src film)
          (λ m s. half-blind h m m.extra s),
      claims_extra-half h (keys_of src.extra),
    )

-- What a record is after a merge: whose paths the contributor may take; for every path, whether the contributor took it; for the fields
-- that all titles share, for the extra keys, and, where the contribution has no runtime of a film,
-- for both numbers of a series, the value that goes with it.
pub record Merged (cur src out : TitleMetadata) (c : Contribution) (now : ℕ) : Type 0 where
  pub rule : (i : Option EnrichmentSource) → (take_over i c ≡ true) ↔ MayTake c i
  pub owned :
      (p : Text)
      → lookup p out.source
        ≡ claimed (claims src p) c (lookup p cur.source) (mine c now) (lookup p cur.source)
  pub shared :
      (b : BaseField)
      → read_base b out
        ≡ claimed
            (claims src (base_path b))
            c
            (lookup (base_path b) cur.source)
            (read_base b src)
            (read_base b cur)
  pub halves :
      NoFilm src
      → (h : Half)
      → read_half h out
        ≡ claimed
            (claims src (half_path h))
            c
            (lookup (half_path h) cur.source)
            (read_half h src)
            (read_half h cur)
  pub extras :
      (k : Text)
      → lookup k out.extra
        ≡ claimed
            (any (λ key. key == k) (keys_of src.extra))
            c
            (lookup (extra_path k) cur.source)
            (some (value_at k src.extra))
            (lookup k cur.extra)

-- No field that the contribution populates has the path.
abbrev pub NoClaim : Text → List TypedField → Type 0
NoClaim p fs = All (λ f. ((f.path == p) ≡ false) ⊎ (f.present ≡ false)) fs

typed_fields-apart : (src : TitleMetadata) (k : Text) → NoClaim (extra_path k) (typed_fields src)
unfolding typed_fields extra_path Text-discrete
typed_fields-apart src k = (
  inl refl,
  (
    inl refl,
    (
      inl refl,
      (
        inl refl,
        (
          inl refl,
          (
            inl refl,
            (inl refl, (inl refl, (inl refl, (inl refl, (inl refl, (inl refl, (inl refl, tt))))))),
          ),
        ),
      ),
    ),
  ),
)

pub unclaimed : (p : Text) (fs : List TypedField) → NoClaim p fs → claims_field p fs ≡ false
unclaimed p [] a = refl
unclaimed p (f ∷ fs) (inl e, a) = ground (arith, e, unclaimed p fs a)
unclaimed p (f ∷ fs) (inr e, a) = ground (arith, e, unclaimed p fs a)

claims_field-extra :
    (src : TitleMetadata) (k : Text) → claims_field (extra_path k) (typed_fields src) ≡ false
claims_field-extra src k = unclaimed (extra_path k) (typed_fields src) (typed_fields-apart src k)

claims_field-blank : (src : TitleMetadata) → claims_field [] (typed_fields src) ≡ false
unfolding typed_fields Text-discrete
claims_field-blank src = ground arith

extra-WritesOnly : (src : TitleMetadata) → WritesOnly (λ m. m.extra) [] [] (typed_fields src)
unfolding typed_fields Text-discrete
extra-WritesOnly src = ground arith

extra-merge_fields :
    (cur src : TitleMetadata) (c : Contribution) (now : ℕ)
    → (merge_fields (typed_fields src) cur c now).extra ≡ cur.extra
extra-merge_fields cur src c now = ground (
  arith,
  read-merge_fields (λ m. m.extra) [] (typed_fields src) cur c now [] (typed_fields-KeepSource src)
      (extra-WritesOnly src) (λ m s. refl),
  claims_field-blank src,
)

any-sorted_keys :
    (p : Text → Bool) (extra : List (Text × Text))
    → any p (sorted_keys extra) ≡ any p (keys_of extra)
unfolding sorted_keys
any-sorted_keys p extra = any-sort_strings p (keys_of extra)

extras-merged_record :
    (cur src : TitleMetadata) (c : Contribution) (now : ℕ) (k : Text)
    → lookup k (merged_record cur src c now).extra
      ≡ claimed
          (any (λ key. key == k) (keys_of src.extra))
          c
          (lookup (extra_path k) cur.source)
          (some (value_at k src.extra))
          (lookup k cur.extra)
unfolding merged_record
extras-merged_record cur src c now k = ground (
  arith,
  extra-merge_extras (sorted_keys src.extra) src.extra (merge_fields (typed_fields src) cur c now) c
      now k,
  any-sorted_keys (λ key. key == k) src.extra,
  lookup-merge_fields (typed_fields src) cur c now (extra_path k) (typed_fields-KeepSource src),
  claims_field-extra src k,
  ap (lookup k) (extra-merge_fields cur src c now),
)

merged_record-Merged :
    (cur src : TitleMetadata) (c : Contribution) (now : ℕ)
    → Merged cur src (merged_record cur src c now) c now
merged_record-Merged cur src c now = record {
  rule = λ i. take_over_iff i c;
  owned = lookup-merged_record cur src c now;
  shared = λ b. read_base-merged_record b cur src c now;
  halves = λ film h. read_half-merged_record h cur src c now film;
  extras = extras-merged_record cur src c now;
}

-- A contribution that names its slot is merged into a record path by path: a path that it claims
-- becomes its own, with its value, if nobody owned it, it did, or a catalogue takes it over from a
-- provider; every other path keeps its owner and its value. This holds for the provenance of all
-- paths, the shared fields, the extra keys, and, without a film's runtime, the numbers of a series.
pub merge-Merged :
    (trim : Text → Text) (cur src : TitleMetadata) (c : Contribution) (now : ℕ)
    → c.metadata ≡ some src
    → blank (trim c.slot) ≡ false
    → (out : TitleMetadata) × (merge trim (some cur) c now ≡ inr out) × Merged cur src out c now
unfolding merge
merge-Merged trim cur src c now e named =
    (merged_record cur src c now, ground (arith, e, named), merged_record-Merged cur src c now)
