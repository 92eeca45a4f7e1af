-- ===== src/SourceCache/Refresh.antt =====
-- The lazy half of core/internal/sourcecache/sourcecache.go: what a search found is taken in, and an
-- availability check is applied.
use abcmovies.Base.{
  ℕ, suc, length, Bool, true, false, ◌&&◌, List, [], ◌∷◌, Text, text_key, if◌then◌else◌, Option,
  none, some, lookup, insert,
}
use abcmovies.ItemRegistry.Records.{CatalogueItem, validate_catalogue_item}
use abcmovies.SourceCache.Table.{item_key, key_of}
use abcmovies.SourceCache.Sync.{
  Caches, Stats, Synchronizer, chain, land, notify_availability, drop_departed,
}

-- `getErr != nil`: the row is not there.
abbrev pub absent : Synchronizer → Text → Caches → CatalogueItem → Bool
absent y account s item = elim (lookup (key_of y.provider account item.native_id) s.rows) [
  | none ↦ true
  | some old ↦ false
]

unfoldable pub all_valid : List CatalogueItem → Bool
all_valid [] = true
all_valid (item ∷ items) = validate_catalogue_item item && all_valid items

abbrev pub announced : Synchronizer → Text → Bool → CatalogueItem → Caches × Bool → Caches × Bool
announced y account new item (s, false) = (s, false)
announced y account new item (s, true) =
    (if new then notify_availability y account s item.native_id true else s, true)

unfoldable pub ingest_loop : Synchronizer → Text → Caches → List CatalogueItem → Caches × Bool
ingest_loop y account s [] = (s, true)
ingest_loop y account s (item ∷ items) =
    chain (announced y account (absent y account s item) item (land y account s item))
      (λ s'. ingest_loop y account s' items)

abbrev pub counted : List CatalogueItem → Caches × Bool → Caches × Option ℕ
counted items (s, false) = (s, none)
counted items (s, true) = (s, some (length items))

-- `IngestItems`: the number of items, or `none` for an error.
unfoldable pub ingest_items : Synchronizer → Caches → Text → List CatalogueItem → Caches × Option ℕ
ingest_items y s account items =
    if all_valid items then counted items (ingest_loop y account s items) else (s, none)

pub record Fresh : Type 0 where
  pub caches : Caches
  pub present : List Text
  pub arrived : List (Text × Bool)
  pub items : ℕ

abbrev freshened : Fresh → Bool → CatalogueItem → Caches × Bool → Fresh × Bool
freshened f new item (s, false) = (record f { caches = s }, false)
freshened f new item (s, true) = (
  record {
    caches = s;
    present = item.native_id ∷ f.present;
    arrived = insert item.native_id new f.arrived;
    items = suc f.items;
  },
  true,
)

-- The first loop of `RefreshItems`: each item is checked as its turn comes.
unfoldable pub refresh_loop : Synchronizer → Text → Fresh → List CatalogueItem → Fresh × Bool
refresh_loop y account f [] = (f, true)
refresh_loop y account f (item ∷ items) = elim (validate_catalogue_item item) [
  | false ↦ (f, false)
  | true ↦
      chain (freshened f (absent y account f.caches item) item (land y account f.caches item))
        (λ f'. refresh_loop y account f' items)
]

-- `arrived[id]`
abbrev has_arrived : Text → List (Text × Bool) → Bool
has_arrived id arrived = elim (lookup id arrived) [ none ↦ false | some b ↦ b ]

unfoldable pub announce_arrivals :
    Synchronizer → Text → List (Text × Bool) → List CatalogueItem → Caches → Caches
announce_arrivals y account arrived [] s = s
announce_arrivals y account arrived (item ∷ items) s = announce_arrivals y account arrived items (
    if has_arrived item.native_id arrived
    then notify_availability y account s item.native_id true
    else s)

abbrev settled :
    Synchronizer → Text → Fresh → List CatalogueItem → Caches × ℕ → Caches × Option Stats
settled y account f items (s, removed) = (
  announce_arrivals y account f.arrived items s,
  some (record { items = f.items; pages = 0; removed = removed }),
)

abbrev applied :
    Synchronizer → Text → List Text → List CatalogueItem → Fresh × Bool → Caches × Option Stats
applied y account ids items (f, false) = (f.caches, none)
applied y account ids items (f, true) =
    settled y account f items (drop_departed y account f.present ids (f.caches, 0))

abbrev no_stats : Stats
no_stats = record { items = 0; pages = 0; removed = 0 }

abbrev answered :
    Synchronizer → Caches → Text → List Text → Option (List CatalogueItem) → Caches × Option Stats
answered y s account ids none = (s, none)
answered y s account ids (some items) =
    applied y account ids items
      (refresh_loop y account (record { caches = s; present = []; arrived = []; items = 0 }) items)

-- `RefreshItems`
unfoldable pub refresh_items : Synchronizer → Caches → Text → List Text → Caches × Option Stats
refresh_items y s account ids = elim y.refresh [
  | none ↦ (s, none)
  | some client ↦ elim ids [
    | [] ↦ (s, some no_stats)
    | n ∷ ns ↦ answered y s account (n ∷ ns) (client account (n ∷ ns))
  ]
]
