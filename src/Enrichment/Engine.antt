-- ===== src/Enrichment/Engine.antt =====
-- core/internal/enrichment/engine.go: how one entry is enriched. The order in which Go visits the set
-- of aliases is that of a list, and the messages of errors are left out.
use abcmovies.Base.{
  ℕ, zero, suc, ◌||◌, List, [], ◌∷◌, ◌++◌, map, Text, text, ◌==◌, blank, if◌then◌else◌, Option,
  none, some, ◌⊎◌, inl, inr, contains,
}
use abcmovies.Identity.Title.{Options}
use abcmovies.Identity.Match.{ExternalId, Item}
use abcmovies.Identity.Select.{screen, adopt}
use abcmovies.MetadataCache.Cache.{
  Cache, Codec, cut, get_record, put_record, resolve_ref, link_alias,
}
use abcmovies.Enrichment.Merge.{
  TitleMetadata, KindSpecific, unset, movie, series, Contribution, source_catalogue, merge,
}

-- `Metadata` is a pointer, `none` where it is nil.
pub record EntryEvidence : Type 0 where
  pub kind : ℕ
  pub metadata : Option TitleMetadata
  pub external_ids : List (Option ExternalId)

pub record LookupTitleRequest : Type 0 where
  pub query : Text
  pub kind : ℕ
  pub year : ℕ

pub record TitleCandidate : Type 0 where
  pub ref : Text
  pub title : Text
  pub original_title : Text
  pub kind : ℕ
  pub year : ℕ
  pub external_ids : List (Option ExternalId)

pub record GetMetadataResponse : Type 0 where
  pub metadata : Option TitleMetadata
  pub external_ids : List (Option ExternalId)

-- A catalogue slot; a call that fails is `none`.
pub record Catalogue : Type 0 where
  pub slot : Text
  pub lookup_title : LookupTitleRequest → Option (List TitleCandidate)
  pub get_metadata : Text → Option GetMetadataResponse

-- The evidence of an entry fails (`inl`), or is there or not; `trim` is `strings.TrimSpace`.
pub record Engine : Type 0 where
  pub evidence : Text → Unit {0} ⊎ Option EntryEvidence
  pub codec : Codec TitleMetadata
  pub catalogs : List Catalogue
  pub opts : Options
  pub trim : Text → Text

unfoldable pub external_key : Option ExternalId → Text
external_key none = []
external_key (some id) =
    if blank id.namespace || blank id.value then [] else id.namespace ++ (text ":" ++ id.value)

-- The part of a record that `identity.Item` reads.
abbrev film_runtime : KindSpecific → Option ℕ
film_runtime unset = none
film_runtime (movie minutes) = some minutes
film_runtime (series seasons episodes) = none

abbrev identity_metadata : Option TitleMetadata → abcmovies.Identity.Match.TitleMetadata
identity_metadata none = record {
  title = [];
  year = 0;
  directors = [];
  cast = [];
  original_language = [];
  movie = none;
}
identity_metadata (some m) = record {
  title = m.title;
  year = m.year;
  directors = m.directors;
  cast = m.cast;
  original_language = m.original_language;
  movie = film_runtime m.kind_specific;
}

-- `claimedIDs`
unfoldable pub claimed_ids : TitleCandidate → List (Option ExternalId)
claimed_ids c = c.external_ids ++ elim (cut b':' c.ref) [
  | none ↦ []
  | some (ns, val) ↦
      if blank ns || blank val then [] else some (record { namespace = ns; value = val }) ∷ []
]

-- `candidateItem`
unfoldable pub candidate_item : TitleCandidate → Item
candidate_item c = record {
  kind = c.kind;
  external_ids = claimed_ids c;
  metadata = record {
    title = c.title;
    year = c.year;
    directors = [];
    cast = [];
    original_language = [];
    movie = none;
  };
  alt_titles =
      if blank c.original_title || c.original_title == c.title then [] else c.original_title ∷ [];
}

pub record PooledCandidate : Type 0 where
  pub cat : Catalogue
  pub candidate : TitleCandidate
  pub item : Item

pub record FullItem : Type 0 where
  pub cat : Catalogue
  pub ref : Text
  pub response : GetMetadataResponse
  pub item : Item

-- What the ids of an entry say: one cannot be resolved, one has a record, or none has.
pub data Known : Type 0 where
  unresolvable : Known
  recorded : Known
  unknown : Known

unfoldable pub known_ids : Codec TitleMetadata → Cache → List (Option ExternalId) → Known
known_ids codec c [] = unknown
known_ids codec c (id ∷ ids) =
    let rest = known_ids codec c ids in
    elim (resolve_ref codec c (external_key id)) [
      | inl fault ↦ unresolvable
      | inr none ↦ rest
      | inr (some ref) ↦ elim (get_record codec c ref) [
        | inl fault ↦ rest
        | inr none ↦ rest
        | inr (some m) ↦ recorded
      ]
    ]

abbrev title_of : Option TitleMetadata → Text
title_of none = []
title_of (some m) = m.title

abbrev year_of : Option TitleMetadata → ℕ
year_of none = 0
year_of (some m) = m.year

abbrev pub evidence_item : EntryEvidence → Item
evidence_item ev = record {
  kind = ev.kind;
  external_ids = ev.external_ids;
  metadata = identity_metadata ev.metadata;
  alt_titles = [];
}

abbrev pub pooled : Catalogue → TitleCandidate → PooledCandidate
pooled cat c = record { cat = cat; candidate = c; item = candidate_item c }

abbrev pub request_of : EntryEvidence → LookupTitleRequest
request_of ev = record { query = title_of ev.metadata; kind = ev.kind; year = year_of ev.metadata }

-- The candidates of all catalogues; one whose lookup fails is left out.
unfoldable pub pool_of : List Catalogue → EntryEvidence → List PooledCandidate
pool_of [] ev = []
pool_of (cat ∷ cats) ev =
    let rest = pool_of cats ev in
    elim (cat.lookup_title (request_of ev)) [
      | none ↦ rest
      | some candidates ↦ map (λ c. pooled cat c) candidates ++ rest
    ]

-- `xs[i]`
unfoldable pub get_elem? {ℓ} : {A : Type ℓ} → List A → ℕ → Option A
get_elem? [] i = none
get_elem? (x ∷ xs) zero = some x
get_elem? (x ∷ xs) (suc i) = get_elem? xs i

abbrev pub full_item : PooledCandidate → GetMetadataResponse → FullItem
full_item p r = record {
  cat = p.cat;
  ref = p.candidate.ref;
  response = r;
  item = record {
    kind = p.candidate.kind;
    external_ids = claimed_ids p.candidate ++ r.external_ids;
    metadata = identity_metadata r.metadata;
    alt_titles = [];
  };
}

-- The survivors whose details could be fetched. An index that is out of range, which `Screen` never
-- returns, is left out.
unfoldable pub full_items : List PooledCandidate → List ℕ → List FullItem
full_items pool [] = []
full_items pool (i ∷ is) =
    let rest = full_items pool is in
    elim (get_elem? pool i) [
      | none ↦ rest
      | some p ↦ elim (p.cat.get_metadata p.candidate.ref) [
        | none ↦ rest
        | some r ↦ full_item p r ∷ rest
      ]
    ]

-- The set of aliases of a record besides its reference.
unfoldable pub alias_keys : Text → List (Option ExternalId) → List Text
alias_keys ref [] = []
alias_keys ref (id ∷ ids) =
    let key = external_key id in
    let rest = alias_keys ref ids in
    if blank key || (key == ref || contains rest key) then rest else key ∷ rest

-- A link that fails is logged.
unfoldable pub link_all : Codec TitleMetadata → Cache → Text → List Text → Cache
link_all codec c ref [] = c
link_all codec c ref (alias ∷ rest) =
    link_all codec (elim (link_alias codec c alias ref) [ inl fault ↦ c | inr next ↦ next ]) ref
      rest

pub data EnrichError : Type 0 where
  no_evidence : EnrichError
  not_resolved : EnrichError
  no_detail : EnrichError
  not_merged : EnrichError
  not_stored : EnrichError

-- The contribution of the candidate that was picked.
abbrev pub contribution : FullItem → Contribution
contribution win = record {
  slot = win.cat.slot;
  kind = source_catalogue;
  metadata = win.response.metadata;
}

-- The record of a reference, none where it cannot be read.
unfoldable pub current : Codec TitleMetadata → Cache → Text → Option TitleMetadata
current codec c ref = elim (get_record codec c ref) [ inl fault ↦ none | inr m ↦ m ]

-- The end of `Enrich`: the record is merged and stored, and then its aliases are linked.
unfoldable pub fold_in : Engine → Cache → FullItem → ℕ → EnrichError ⊎ Cache
fold_in y c win now = elim (merge y.trim (current y.codec c win.ref) (contribution win) now) [
  | inl fault ↦ inl not_merged
  | inr merged ↦ elim (put_record y.codec c win.ref (some merged)) [
    | inl fault ↦ inl not_stored
    | inr next ↦ inr (link_all y.codec next win.ref (alias_keys win.ref win.response.external_ids))
  ]
]

-- The candidate that is picked among those with details, none if it is ambiguous.
unfoldable pub pick : Options → Item → List FullItem → Option FullItem
pick opts entry full = elim (adopt opts entry (map (λ f. f.item) full)) [
  | none ↦ none
  | some i ↦ get_elem? full i
]

-- The choice among the survivors with details, all of whose fetches may have failed.
unfoldable pub choose : Engine → Cache → EntryEvidence → ℕ → List FullItem → EnrichError ⊎ Cache
choose y c ev now [] = inl no_detail
choose y c ev now (f ∷ fs) = elim (pick y.opts (evidence_item ev) (f ∷ fs)) [
  | none ↦ inr c
  | some win ↦ fold_in y c win now
]

-- What follows the screen.
unfoldable pub screened :
    Engine → Cache → EntryEvidence → ℕ → List PooledCandidate → List ℕ → EnrichError ⊎ Cache
screened y c ev now pool [] = inr c
screened y c ev now pool (i ∷ is) = choose y c ev now (full_items pool (i ∷ is))

-- The lookup by text, once no id of the entry has a record.
unfoldable pub search_text : Engine → Cache → EntryEvidence → ℕ → EnrichError ⊎ Cache
search_text y c ev now =
    let pool = pool_of y.catalogs ev in
    screened y c ev now pool (screen y.opts (evidence_item ev) (map (λ p. p.item) pool))

-- `Enrich`: the cache that it leaves, or its error, with which the cache stays.
unfoldable pub enrich : Engine → Cache → Text → ℕ → EnrichError ⊎ Cache
enrich y c entry_id now = elim (y.evidence entry_id) [
  | inl fault ↦ inl no_evidence
  | inr none ↦ inr c
  | inr (some ev) ↦ elim (known_ids y.codec c ev.external_ids) [
    | unresolvable ↦ inl not_resolved
    | recorded ↦ inr c
    | unknown ↦ search_text y c ev now
  ]
]
