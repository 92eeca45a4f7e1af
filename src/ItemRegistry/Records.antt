-- ===== src/ItemRegistry/Records.antt =====
-- The records of core/internal/itemregistry/registry.go and the item they are made from, which
-- core/internal/schema/provider.go checks. The store's key space is a map per prefix, with the
-- parts of a key in place of their path.
use abcmovies.Base.{
  ℕ, Bool, true, false, not, ◌&&◌, List, [], ◌∷◌, Text, blank, eqb, ℕ_discrete, Option, none, some,
  Key, Text-discrete, text_key,
}
use abcmovies.Identity.Title.{Options}
use abcmovies.Identity.Match.{ExternalId, TitleMetadata, usable, kind_unspecified}
use abcmovies.Identity.Proof.{Proof}

pub record CatalogueItem : Type 0 where
  pub native_id : Text
  pub kind : ℕ
  pub metadata : Option TitleMetadata
  pub external_ids : List (Option ExternalId)

abbrev pub nil_metadata : TitleMetadata
nil_metadata = record {
  title = [];
  year = 0;
  directors = [];
  cast = [];
  original_language = [];
  movie = none;
}

-- `item.GetMetadata()`, to be read by getters.
abbrev pub metadata_of : CatalogueItem → TitleMetadata
metadata_of item = elim item.metadata [ none ↦ nil_metadata | some md ↦ md ]

abbrev all_usable : List (Option ExternalId) → Bool
all_usable [] = true
all_usable (x ∷ xs) = usable x && all_usable xs

unfoldable pub validate_catalogue_item : CatalogueItem → Bool
validate_catalogue_item item =
    not (blank item.native_id)
    && (not (eqb item.kind kind_unspecified) && elim item.metadata [
      | none ↦ false
      | some md ↦ not (blank md.title) && all_usable item.external_ids
    ])

pub record IdClaim : Type 0 where
  pub namespace : Text
  pub value : Text
  pub suppliers : List Text

pub record EntryRecord : Type 0 where
  pub id : Text
  pub kind : ℕ
  pub title : Text
  pub year : ℕ
  pub directors : List Text
  pub cast : List Text
  pub original_language : Text
  pub runtime_minutes : ℕ
  pub claims : List IdClaim

pub record MappingRecord : Type 0 where
  pub entry_id : Text
  pub generation : ℕ
  pub proof : Proof

pub record ConflictRecord : Type 0 where
  pub provider : Text
  pub native_id : Text
  -- the entry the mapping moved off
  pub entry_id : Text
  pub recorded_at : ℕ

pub data Status : Type 0 where
  status_created : Status
  status_attached : Status
  status_unchanged : Status
  status_updated : Status

pub record MergeConflictEvent : Type 0 where
  pub user_id : Text
  pub provider : Text
  pub provider_id : Text
  pub entry_id : Text

pub record Outcome : Type 0 where
  pub entry_id : Text
  pub status : Status
  pub recycled : Bool
  pub superseded_entry_id : Text
  pub events : List MergeConflictEvent

-- The parts of `mappingKey`.
pub record MappingKey : Type 0 where
  pub provider : Text
  pub native_id : Text

-- The parts of `aliasKey`.
pub record AliasKey : Type 0 where
  pub mapping : MappingKey
  pub generation : ℕ

-- The parts of `titleIndexPrefix`.
pub record TitleKey : Type 0 where
  pub norm_title : Text
  pub kind : ℕ

-- The parts of `extIndexPrefix`.
pub record ExtKey : Type 0 where
  pub namespace : Text
  pub value : Text

unfoldable pub MappingKey-discrete : Discrete MappingKey
MappingKey-discrete = hlevel Text-discrete

unfoldable pub AliasKey-discrete : Discrete AliasKey
unfolding ℕ_discrete
AliasKey-discrete = hlevel (MappingKey-discrete, ℕ_discrete)

unfoldable pub TitleKey-discrete : Discrete TitleKey
unfolding ℕ_discrete
TitleKey-discrete = hlevel (Text-discrete, ℕ_discrete)

unfoldable pub ExtKey-discrete : Discrete ExtKey
ExtKey-discrete = hlevel Text-discrete

instance abbrev pub mapping_key : Key MappingKey
mapping_key = record { dec = MappingKey-discrete }

instance abbrev pub alias_key : Key AliasKey
alias_key = record { dec = AliasKey-discrete }

instance abbrev pub title_key : Key TitleKey
title_key = record { dec = TitleKey-discrete }

instance abbrev pub ext_key : Key ExtKey
ext_key = record { dec = ExtKey-discrete }

pub record Registry : Type 0 where
  pub entries : List (Text × EntryRecord)
  pub mappings : List (MappingKey × MappingRecord)
  pub aliases : List (AliasKey × Text)
  pub title_index : List (TitleKey × List Text)
  pub ext_index : List (ExtKey × List Text)
  pub conflicts : List (Text × ConflictRecord)
  pub owner_id : Text
  pub opts : Options

-- What a call draws from the random source and the clock.
pub record Draws : Type 0 where
  pub entry_id : Text
  pub conflict_id : Text
  pub now : ℕ
