-- ===== src/Schema/Entries.antt =====
-- `ValidateLibraryEntry` and `ValidateTitleMetadata` of core/internal/schema/schema.go. A wire enum is its
-- number, a pointer is an option, and what the checks do not read is left out of the messages.
use abcmovies.Base.{
  ℕ, Bool, true, false, not, ◌&&◌, ◌||◌, List, [], ◌∷◌, Text, text, eqb, leb, blank, if◌then◌else◌,
  Option, none, some,
}
use abcmovies.Enrichment.Merge.{has_prefix, TitleMetadata, KindSpecific, unset, movie, series}
use abcmovies.Schema.Source.{no_items}

pub record SeasonRange : Type 0 where
  pub start : ℕ
  pub last : ℕ

pub record CoverageRow : Type 0 where
  pub present : Bool
  pub seasons : List (Option SeasonRange)
  pub verdict : ℕ
  pub via : List Text

pub record ExternalIdentity : Type 0 where
  pub namespace : Text
  pub value : Text
  pub provenance : Text
  pub verdict : ℕ

pub record LibraryEntry : Type 0 where
  pub id : Text
  pub kind : ℕ
  pub coverage : List (Text × Option CoverageRow)
  pub external_identities : List (Option ExternalIdentity)

abbrev pub entry_kind_movie : ℕ
entry_kind_movie = 1

unfoldable pub validate_seasons : List (Option SeasonRange) → Bool
validate_seasons [] = true
validate_seasons (none ∷ ss) = false
validate_seasons (some s ∷ ss) = leb s.start s.last && validate_seasons ss

unfoldable pub validate_coverage_row : ℕ → Option CoverageRow → Bool
validate_coverage_row kind none = false
validate_coverage_row kind (some row) =
    if eqb row.verdict 0
    then false
    else if row.present && no_items row.via
    then false
    else if not (no_items row.seasons) && eqb kind entry_kind_movie
    then false
    else validate_seasons row.seasons

unfoldable pub validate_external_identity : Option ExternalIdentity → Bool
validate_external_identity none = false
validate_external_identity (some id) =
    not (blank id.namespace || (blank id.value || blank id.provenance)) && not (eqb id.verdict 0)

unfoldable pub validate_coverage : ℕ → List (Text × Option CoverageRow) → Bool
validate_coverage kind [] = true
validate_coverage kind ((key, row) ∷ rows) =
    validate_coverage_row kind row && validate_coverage kind rows

unfoldable pub validate_identities : List (Option ExternalIdentity) → Bool
validate_identities [] = true
validate_identities (id ∷ ids) = validate_external_identity id && validate_identities ids

unfoldable pub validate_library_entry : Option LibraryEntry → Bool
validate_library_entry none = false
validate_library_entry (some le) =
    if blank le.id
    then false
    else if not (has_prefix le.id (text "le_"))
    then false
    else if eqb le.kind 0
    then false
    else validate_coverage le.kind le.coverage && validate_identities le.external_identities

abbrev pub is_set : KindSpecific → Bool
is_set unset = false
is_set (movie minutes) = true
is_set (series seasons episodes) = true

unfoldable pub validate_title_metadata : Option TitleMetadata → Bool
validate_title_metadata none = false
validate_title_metadata (some tm) = not (blank tm.title) && is_set tm.kind_specific
