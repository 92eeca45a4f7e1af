-- ===== src/Library/Derive.antt =====
-- The derivation of a user's library in core/internal/library/library.go (`RebuildUser`).
use abcmovies.Base.{
  ℕ, Bool, true, List, [], ◌∷◌, ◌++◌, map, Text, text, eqb, if◌then◌else◌, blank, contains, any,
  Option, none, some, lookup, insert, text_key, map_values, sort_strings,
}
use abcmovies.Identity.Match.{ExternalId}
use abcmovies.ItemRegistry.Records.{CatalogueItem, Registry, IdClaim}
use abcmovies.ItemRegistry.Claims.{claim_key, probe_key}
use abcmovies.ItemRegistry.Resolve.{lookup_entry}
use abcmovies.ItemRegistry.Views.{Canonical, canonical}
use abcmovies.SourceCache.Table.{ItemKey, list_items}
use abcmovies.Library.Reach.{Reach, derivable}

pub data EntryKind : Type 0 where
  movie series : EntryKind

abbrev kind_series : ℕ
kind_series = 2

unfoldable pub entry_kind : ℕ → EntryKind
entry_kind k = if eqb k kind_series then series else movie

pub data Verdict : Type 0 where
  unspecified corroborated single_source : Verdict

pub record ExternalIdentity : Type 0 where
  pub namespace : Text
  pub value : Text
  pub verdict : Verdict
  pub provenance : Text

pub data CoverageVerdict : Type 0 where
  unspecified corroborated presence_only : CoverageVerdict

pub record CoverageRow : Type 0 where
  pub present : Bool
  pub verdict : CoverageVerdict
  pub via : List Text
  pub last_verified : ℕ

pub record LibraryEntry : Type 0 where
  pub id : Text
  pub kind : EntryKind
  pub external_identities : List ExternalIdentity
  pub coverage : List (Text × CoverageRow)
  pub metadata_ref : Text

-- What a library is derived from: the source caches, the item registry, and `meta.Resolve`, which
-- finds nothing where there is no metadata cache or where it fails.
pub record Sources : Type 0 where
  pub cache : List (ItemKey × CatalogueItem)
  pub registry : Registry
  pub resolve : Text → Option Text

-- `strings.Join(suppliers, ",")`
unfoldable pub join_comma : List Text → Text
join_comma [] = []
join_comma (t ∷ []) = t
join_comma (t ∷ u ∷ ts) = t ++ text "," ++ join_comma (u ∷ ts)

abbrev pub external_identity : IdClaim → ExternalIdentity
external_identity c = record {
  namespace = c.namespace;
  value = c.value;
  verdict = Verdict.corroborated;
  provenance = join_comma c.suppliers;
}

-- The first reference that a claim resolves to.
unfoldable pub first_ref : (Text → Option Text) → List IdClaim → Text
first_ref resolve [] = []
first_ref resolve (c ∷ cs) = elim (resolve (c.namespace ++ text ":" ++ c.value)) [
  | none ↦ first_ref resolve cs
  | some ref ↦ let rest = first_ref resolve cs in if blank ref then rest else ref
]

pub record Build : Type 0 where
  pub entry : LibraryEntry
  pub claim_keys : List Text
  pub observers : List (Text × List Text)

abbrev pub new_build : Sources → Text → Canonical → Build
new_build w id canon = record {
  entry = record {
    id = id;
    kind = entry_kind canon.kind;
    external_identities = map external_identity canon.claims;
    coverage = [];
    metadata_ref = first_ref w.resolve canon.claims;
  };
  claim_keys = map claim_key canon.claims;
  observers = [];
}

-- The getters of an id that is nil read blank parts.
abbrev id_key : Option ExternalId → Text
id_key none = 0 ∷ []
id_key (some x) = probe_key x

abbrev pub cover_key : Reach → CatalogueItem → Text
cover_key r item = r.provider ++ text ":" ++ item.native_id

abbrev pub via_of : Reach → Text
via_of r = r.account_id ++ text ":" ++ r.provider ++ text ":host"

-- `b.observers[key]`
abbrev pub observed : Text → Build → List Text
observed key b = elim (lookup key b.observers) [ none ↦ [] | some vias ↦ vias ]

abbrev pub add_via : Text → Text → Build → List (Text × List Text)
add_via key via b =
    if contains (observed key b) via
    then b.observers
    else insert key (observed key b ++ (via ∷ [])) b.observers

abbrev pub row_of : Build → CatalogueItem → ℕ → CoverageRow
row_of b item now = record {
  present = true;
  verdict =
      if any (λ x. contains b.claim_keys (id_key x)) item.external_ids
      then CoverageVerdict.corroborated
      else CoverageVerdict.presence_only;
  via = [];
  last_verified = now;
}

-- An item is entered in the coverage of its entry.
unfoldable pub observe : Reach → ℕ → CatalogueItem → Build → Build
observe r now item b =
    let key = cover_key r item in
    record b {
      entry = record b.entry {
        coverage = elim (lookup key b.entry.coverage) [
          | some row ↦ b.entry.coverage
          | none ↦ insert key (row_of b item now) b.entry.coverage
        ];
      };
      observers = add_via key (via_of r) b;
    }

pub record Draft : Type 0 where
  pub order : List Text
  pub builds : List (Text × Build)

unfoldable pub enter : Sources → Reach → ℕ → Text → Canonical → CatalogueItem → Draft → Draft
enter w r now id canon item d = elim (lookup id d.builds) [
  | none ↦ record {
    order = d.order ++ (id ∷ []);
    builds = insert id (observe r now item (new_build w id canon)) d.builds;
  }
  | some b ↦ record d { builds = insert id (observe r now item b) d.builds }
]

-- One turn of the inner loop; `none` is an error.
unfoldable pub build_item : Sources → Reach → ℕ → Draft → CatalogueItem → Option Draft
build_item w r now d item = elim (lookup_entry w.registry r.provider item.native_id) [
  | none ↦ none
  | some none ↦ some d
  | some (some id) ↦ elim (canonical w.registry id) [
    | none ↦ none
    | some none ↦ some d
    | some (some canon) ↦ some (enter w r now id canon item d)
  ]
]

unfoldable pub build_items : Sources → Reach → ℕ → Draft → List CatalogueItem → Option Draft
build_items w r now d [] = some d
build_items w r now d (item ∷ items) = elim (build_item w r now d item) [
  | none ↦ none
  | some d' ↦ build_items w r now d' items
]

unfoldable pub build_reaches : Sources → ℕ → Draft → List Reach → Option Draft
build_reaches w now d [] = some d
build_reaches w now d (r ∷ reaches) =
    elim (build_items w r now d (list_items r.provider r.account_id w.cache)) [
      | none ↦ none
      | some d' ↦ build_reaches w now d' reaches
    ]

-- The rows get their observers, sorted.
unfoldable pub finished : Build → LibraryEntry
finished b = record b.entry {
  coverage =
      map_values (λ key row. record row { via = sort_strings (observed key b) }) b.entry.coverage;
}

unfoldable pub listed_entries : List (Text × Build) → List Text → List LibraryEntry
listed_entries builds [] = []
listed_entries builds (id ∷ ids) = elim (lookup id builds) [
  | none ↦ listed_entries builds ids
  | some b ↦ finished b ∷ listed_entries builds ids
]

abbrev pub no_draft : Draft
no_draft = record { order = []; builds = [] }

-- What `RebuildUser` computes.
unfoldable pub derive : Sources → List (Text × Reach) → Text → ℕ → Option (List LibraryEntry)
derive w reaches user now = elim (build_reaches w now no_draft (derivable reaches user)) [
  | none ↦ none
  | some d ↦ some (listed_entries d.builds (sort_strings d.order))
]
