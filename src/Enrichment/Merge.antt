-- ===== src/Enrichment/Merge.antt =====
-- core/internal/enrichment/merge.go: one contribution folded into a record. Getters of a nil message
-- return zero values; a float32 is the number of its bits, and a time is a number.
use abcmovies.Base.{
  ℕ, Bool, true, false, not, ◌&&◌, ◌||◌, List, [], ◌∷◌, ◌++◌, Text, text, ◌==◌, eqb, blank,
  if◌then◌else◌, Option, none, some, ◌⊎◌, inl, inr, text_key, lookup, insert, sort_strings,
}

pub data SourceKind : Type 0 where
  source_provider : SourceKind
  source_catalogue : SourceKind

-- The strings of the source kinds.
abbrev pub kind_text : SourceKind → Text
kind_text source_catalogue = text "catalogue"
kind_text source_provider = text "provider"

pub record EnrichmentSource : Type 0 where
  pub slot : Text
  pub fetched_at : ℕ

-- The oneof `kind_specific`.
pub data KindSpecific : Type 0 where
  unset : KindSpecific
  movie : ℕ → KindSpecific
  series : ℕ → ℕ → KindSpecific

pub record TitleMetadata : Type 0 where
  pub title : Text
  pub year : ℕ
  pub description : Text
  pub poster_url : Text
  pub rating : ℕ
  pub content_rating : Text
  pub genres : List Text
  pub original_language : Text
  pub cast : List Text
  pub directors : List Text
  pub kind_specific : KindSpecific
  pub source : List (Text × EnrichmentSource)
  pub extra : List (Text × Text)

-- `Metadata` is a pointer, `none` where it is nil.
pub record Contribution : Type 0 where
  pub slot : Text
  pub kind : SourceKind
  pub metadata : Option TitleMetadata

abbrev pub owner : Contribution → Text
owner c = kind_text c.kind ++ (text ":" ++ c.slot)

-- The test `rating != 0` on the bits of a float32: neither zero is rated.
abbrev pub rated : ℕ → Bool
rated bits = not (eqb bits 0 || eqb bits 2147483648)

abbrev pub runtime_minutes : KindSpecific → ℕ
runtime_minutes unset = 0
runtime_minutes (movie minutes) = minutes
runtime_minutes (series seasons episodes) = 0

abbrev pub total_seasons : KindSpecific → ℕ
total_seasons unset = 0
total_seasons (movie minutes) = 0
total_seasons (series seasons episodes) = seasons

abbrev pub total_episodes : KindSpecific → ℕ
total_episodes unset = 0
total_episodes (movie minutes) = 0
total_episodes (series seasons episodes) = episodes

abbrev pub filled : List Text → Bool
filled [] = false
filled (t ∷ l) = true

-- `write` sees the record that is written and keeps its other fields.
pub record TypedField : Type 0 where
  pub path : Text
  pub present : Bool
  pub write : TitleMetadata → TitleMetadata

abbrev pub patch_movie : TitleMetadata → ℕ → TitleMetadata
patch_movie dst runtime = record dst { kind_specific = movie runtime }

abbrev pub patch_series : TitleMetadata → ℕ → ℕ → TitleMetadata
patch_series dst seasons episodes = record dst { kind_specific = series seasons episodes }

-- One path of a contribution.
abbrev pub field : Text → Bool → (TitleMetadata → TitleMetadata) → TypedField
field path present write = record { path = path; present = present; write = write }

unfoldable pub typed_fields : TitleMetadata → List TypedField
typed_fields src =
    field (text "base.title") (not (blank src.title)) (λ dst. record dst { title = src.title })
    ∷ field (text "base.year") (not (eqb src.year 0)) (λ dst. record dst { year = src.year })
    ∷ field (text "base.description") (not (blank src.description))
        (λ dst. record dst { description = src.description })
    ∷ field (text "base.poster_url") (not (blank src.poster_url))
        (λ dst. record dst { poster_url = src.poster_url })
    ∷ field (text "base.rating") (rated src.rating) (λ dst. record dst { rating = src.rating })
    ∷ field (text "base.content_rating") (not (blank src.content_rating))
        (λ dst. record dst { content_rating = src.content_rating })
    ∷ field (text "base.genres") (filled src.genres) (λ dst. record dst { genres = src.genres })
    ∷ field (text "base.original_language") (not (blank src.original_language))
        (λ dst. record dst { original_language = src.original_language })
    ∷ field (text "base.cast") (filled src.cast) (λ dst. record dst { cast = src.cast })
    ∷ field (text "base.directors") (filled src.directors)
        (λ dst. record dst { directors = src.directors })
    ∷ field (text "movie.runtime_minutes") (not (eqb (runtime_minutes src.kind_specific) 0))
        (λ dst. patch_movie dst (runtime_minutes src.kind_specific))
    ∷ field (text "series.total_seasons") (not (eqb (total_seasons src.kind_specific) 0)) (λ dst.
      patch_series dst (total_seasons src.kind_specific) (total_episodes dst.kind_specific))
    ∷ field (text "series.total_episodes") (not (eqb (total_episodes src.kind_specific) 0)) (λ dst.
      patch_series dst (total_seasons dst.kind_specific) (total_episodes src.kind_specific))
    ∷ []

-- `strings.HasPrefix`
unfoldable pub has_prefix : Text → Text → Bool
has_prefix s [] = true
has_prefix [] (p ∷ ps) = false
has_prefix (c ∷ cs) (p ∷ ps) = eqb c p && has_prefix cs ps

abbrev pub is_catalogue : SourceKind → Bool
is_catalogue source_catalogue = true
is_catalogue source_provider = false

-- A path without an entry has no owner.
unfoldable pub take_over : Option EnrichmentSource → Contribution → Bool
take_over none c = true
take_over (some s) c =
    if blank s.slot
    then true
    else if s.slot == owner c
    then true
    else is_catalogue c.kind && has_prefix s.slot (text "provider:")

unfoldable pub stamp : TitleMetadata → Text → Contribution → ℕ → TitleMetadata
stamp m path c now = record m {
  source = insert path (record { slot = owner c; fetched_at = now }) m.source;
}

-- `mergeInto`
unfoldable pub merge_into : TypedField → TitleMetadata → Contribution → ℕ → TitleMetadata
merge_into f dst c now =
    if not f.present
    then dst
    else if take_over (lookup f.path dst.source) c
    then stamp (f.write dst) f.path c now
    else dst

unfoldable pub extra_path : Text → Text
extra_path key = text "extra." ++ key

unfoldable pub merge_extra : TitleMetadata → Text → Text → Contribution → ℕ → TitleMetadata
merge_extra dst key val c now =
    if not (take_over (lookup (extra_path key) dst.source) c)
    then dst
    else stamp (record dst { extra = insert key val dst.extra }) (extra_path key) c now

unfoldable pub keys_of : List (Text × Text) → List Text
keys_of [] = []
keys_of ((key, val) ∷ m) = key ∷ keys_of m

unfoldable pub sorted_keys : List (Text × Text) → List Text
sorted_keys m = sort_strings (keys_of m)

-- `m[key]`
abbrev pub value_at : Text → List (Text × Text) → Text
value_at key m = elim (lookup key m) [ none ↦ [] | some val ↦ val ]

-- The loops of `Merge` into a new record and into an old one.
unfoldable pub stamp_fields : List TypedField → TitleMetadata → Contribution → ℕ → TitleMetadata
stamp_fields [] out c now = out
stamp_fields (f ∷ fs) out c now =
    stamp_fields fs (if f.present then stamp out f.path c now else out) c now

unfoldable pub stamp_extra : List Text → TitleMetadata → Contribution → ℕ → TitleMetadata
stamp_extra [] out c now = out
stamp_extra (key ∷ keys) out c now = stamp_extra keys (stamp out (extra_path key) c now) c now

unfoldable pub merge_fields : List TypedField → TitleMetadata → Contribution → ℕ → TitleMetadata
merge_fields [] out c now = out
merge_fields (f ∷ fs) out c now = merge_fields fs (merge_into f out c now) c now

unfoldable pub merge_extras :
    List Text → List (Text × Text) → TitleMetadata → Contribution → ℕ → TitleMetadata
merge_extras [] extra out c now = out
merge_extras (key ∷ keys) extra out c now =
    merge_extras keys extra (merge_extra out key (value_at key extra) c now) c now

pub data MergeError : Type 0 where
  slot_required : MergeError
  no_metadata : Text → MergeError

unfoldable pub founded_record : TitleMetadata → Contribution → ℕ → TitleMetadata
founded_record src c now =
    stamp_extra (sorted_keys src.extra)
      (stamp_fields (typed_fields src) (record src { source = [] }) c now) c now

unfoldable pub merged_record : TitleMetadata → TitleMetadata → Contribution → ℕ → TitleMetadata
merged_record current src c now =
    merge_extras (sorted_keys src.extra) src.extra (merge_fields (typed_fields src) current c now) c
      now

-- `Merge`; `trim` is `strings.TrimSpace`, and a nil `current` is `none`.
unfoldable pub merge :
    (Text → Text) → Option TitleMetadata → Contribution → ℕ → MergeError ⊎ TitleMetadata
merge trim current c now = if blank (trim c.slot) then inl slot_required else elim c.metadata [
  | none ↦ inl (no_metadata c.slot)
  | some src ↦ elim current [
    | none ↦ inr (founded_record src c now)
    | some cur ↦ inr (merged_record cur src c now)
  ]
]
