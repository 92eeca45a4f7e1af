-- ===== src/Identity/Match.antt =====
-- core/internal/identity/match.go: `Decide` and what it reads. Getters of a nil message return zero
-- values, so that a nil `Metadata` is the record of zeros; a nil external id is `none`.
use abcmovies.Base.{
  ℕ, Bool, true, false, not, ◌&&◌, ◌||◌, List, Text, ◌==◌, blank, ltb, eqb, if◌then◌else◌, Option,
  none, some, any, contains,
}
use abcmovies.Identity.Title.{Options, normalize_title}

pub data Signal : Type 0 where
  signal_none : Signal
  signal_director : Signal
  signal_cast_member : Signal
  signal_original_language : Signal
  signal_duration : Signal

pub record Verdict : Type 0 where
  pub merge : Bool
  pub corroborated : Bool
  pub signal : Signal

pub record ExternalId : Type 0 where
  pub namespace : Text
  pub value : Text

pub record TitleMetadata : Type 0 where
  pub title : Text
  pub year : ℕ
  pub directors : List Text
  pub cast : List Text
  pub original_language : Text
  -- `RuntimeMinutes` of the movie variant, `none` for another variant
  pub movie : Option ℕ

-- The numbers of the enumeration `ItemKind`.
abbrev pub kind_unspecified : ℕ
kind_unspecified = 0

abbrev pub kind_movie : ℕ
kind_movie = 1

pub record Item : Type 0 where
  pub kind : ℕ
  pub external_ids : List (Option ExternalId)
  pub metadata : TitleMetadata
  pub alt_titles : List Text

abbrev pub runtime_minutes : TitleMetadata → ℕ
runtime_minutes m = elim m.movie [ none ↦ 0 | some minutes ↦ minutes ]

abbrev pub no_verdict : Verdict
no_verdict = record { merge = false; corroborated = false; signal = signal_none }

-- An id that the loops do not skip.
abbrev pub usable : Option ExternalId → Bool
usable none = false
usable (some x) = not (blank x.namespace || blank x.value)

abbrev pub same_assertion : Option ExternalId → Option ExternalId → Bool
same_assertion (some x) (some y) = y.namespace == x.namespace && y.value == x.value
same_assertion x y = false

unfoldable pub corroboration_match : List (Option ExternalId) → List (Option ExternalId) → Bool
corroboration_match xs ys = any (λ x. usable x && any (λ y. same_assertion x y) ys) xs

unfoldable pub same_kind : ℕ → ℕ → Bool
same_kind a b = if eqb a kind_unspecified || eqb b kind_unspecified then false else eqb a b

unfoldable pub title_eq : Options → Text → Text → Bool
title_eq o x y =
    let nx = normalize_title o x in
    let ny = normalize_title o y in not (blank nx) && (not (blank ny) && nx == ny)

unfoldable pub titles_agree : Options → Item → Item → Bool
titles_agree o a b =
    let pa = a.metadata.title in
    let pb = b.metadata.title in
    if title_eq o pa pb
    then true
    else if any (λ at. title_eq o at pb) a.alt_titles
    then true
    else if any (λ bt. title_eq o pa bt) b.alt_titles
    then true
    else any (λ at. any (λ bt. title_eq o at bt) b.alt_titles) a.alt_titles

unfoldable pub years_match : ℕ → ℕ → Bool
years_match a b = ltb 0 a && (ltb 0 b && eqb a b)

-- Two empty lists share nothing, so that the early return is the loop's own answer.
unfoldable pub shares_any : List Text → List Text → Bool
shares_any xs ys = any (λ y. contains xs y) ys

unfoldable pub first_signal : TitleMetadata → TitleMetadata → Signal
first_signal a b =
    if shares_any a.directors b.directors
    then signal_director
    else if shares_any a.cast b.cast
    then signal_cast_member
    else if not (blank a.original_language) && a.original_language == b.original_language
    then signal_original_language
    else if ltb 0 (runtime_minutes a) && eqb (runtime_minutes a) (runtime_minutes b)
    then signal_duration
    else signal_none

abbrev pub heuristic : Signal → Verdict
heuristic signal_none = no_verdict
heuristic found = record { merge = true; corroborated = false; signal = found }

unfoldable pub decide : Options → Item → Item → Verdict
decide o a b =
    if not (same_kind a.kind b.kind)
    then no_verdict
    else if corroboration_match a.external_ids b.external_ids
    then record { merge = true; corroborated = true; signal = signal_none }
    else if not (titles_agree o a b)
    then no_verdict
    else if eqb a.kind kind_movie && not (years_match a.metadata.year b.metadata.year)
    then no_verdict
    else heuristic (first_signal a.metadata b.metadata)
