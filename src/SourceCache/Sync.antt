-- ===== src/SourceCache/Sync.antt =====
-- One catalogue sync of core/internal/sourcecache/sourcecache.go. The item registry behind the
-- resolver and the entry lookup is part of the state; failures of the store are left out.
use abcmovies.Base.{
  ℕ, zero, suc, Bool, true, false, not, ◌&&◌, ◌||◌, List, [], ◌∷◌, ◌++◌, Text, Text-discrete, blank,
  if◌then◌else◌, contains, Option, none, some, Key, insert, delete,
}
use abcmovies.ItemRegistry.Records.{CatalogueItem, Registry, validate_catalogue_item}
use abcmovies.ItemRegistry.Resolve.{lookup_entry}
use abcmovies.SourceCache.Table.{ItemKey, item_key, key_of, belongs}

pub record Page : Type 0 where
  pub items : List CatalogueItem
  pub next_page_token : Text

unfoldable pub unique_items : List Text → List CatalogueItem → Bool
unique_items seen [] = true
unique_items seen (item ∷ items) =
    validate_catalogue_item item
    && (not (contains seen item.native_id) && unique_items (item.native_id ∷ seen) items)

-- `ValidateCatalogueSyncResponse`
unfoldable pub validate_page : Page → Bool
validate_page page = unique_items [] page.items

-- The parts of `manifestKey`.
pub record Account : Type 0 where
  pub provider : Text
  pub account_id : Text

unfoldable pub Account-discrete : Discrete Account
Account-discrete = hlevel Text-discrete

instance abbrev pub account_row : Key Account
account_row = record { dec = Account-discrete }

pub record Manifest : Type 0 where
  pub last_complete_sync : ℕ
  pub items : ℕ

pub record AvailabilityEvent : Type 0 where
  pub account_id : Text
  pub provider : Text
  pub entry_id : Text
  pub present : Bool

pub record Stats : Type 0 where
  pub items : ℕ
  pub pages : ℕ
  pub removed : ℕ

-- The cache's store, the item registry, and what was published, oldest first.
pub record Caches : Type 0 where
  pub rows : List (ItemKey × CatalogueItem)
  pub manifests : List (Account × Manifest)
  pub registry : Registry
  pub events : List AvailabilityEvent

-- The clients answer for an account; a page is asked for by the number of calls before it and a token.
pub record Synchronizer : Type 0 where
  pub provider : Text
  pub client : Text → ℕ → Text → Option Page
  pub refresh : Option (Text → List Text → Option (List CatalogueItem))
  pub resolver : Option (Registry → CatalogueItem → Option Registry)
  -- both an event sink and an entry lookup are there
  pub wired : Bool

-- A step that may fail after it has changed the state.
abbrev pub chain : {A : Type 0} → A × Bool → (A → A × Bool) → A × Bool
chain (a, false) f = (a, false)
chain (a, true) f = f a

abbrev pub resolved : Caches → Option Registry → Caches × Bool
resolved s none = (s, false)
resolved s (some r) = (record s { registry = r }, true)

-- Without a resolver the registry stays.
abbrev pub run_resolver :
    Option (Registry → CatalogueItem → Option Registry) → Registry → CatalogueItem → Option Registry
run_resolver none r item = some r
run_resolver (some f) r item = f r item

-- An item is written and then resolved.
unfoldable pub land : Synchronizer → Text → Caches → CatalogueItem → Caches × Bool
land y account s item =
    resolved (record s { rows = insert (key_of y.provider account item.native_id) item s.rows })
      (run_resolver y.resolver s.registry item)

pub record Progress : Type 0 where
  pub caches : Caches
  pub seen : List Text
  pub items : ℕ
  pub pages : ℕ

abbrev pub noted : Progress → CatalogueItem → Caches → Progress
noted p item s = record p {
  caches = s;
  seen = if contains p.seen item.native_id then p.seen else item.native_id ∷ p.seen;
  items = suc p.items;
}

abbrev pub landed : Progress → CatalogueItem → Caches × Bool → Progress × Bool
landed p item (s, false) = (record p { caches = s }, false)
landed p item (s, true) = (noted p item s, true)

unfoldable pub land_items : Synchronizer → Text → Progress → List CatalogueItem → Progress × Bool
land_items y account p [] = (p, true)
land_items y account p (item ∷ items) =
    chain (landed p item (land y account p.caches item)) (λ p'. land_items y account p' items)

abbrev pub max_pages : ℕ
max_pages = 10000

abbrev pub turned : Progress → Progress
turned p = record p { pages = suc p.pages }

-- The loop of `SyncAccount`, with the pages that are left to it.
unfoldable pub sync_pages : Synchronizer → Text → ℕ → Progress → Text → Progress × Bool
sync_pages y account zero p token = (p, false)
sync_pages y account (suc left) p token = elim (y.client account p.pages token) [
  | none ↦ (p, false)
  | some page ↦ elim (validate_page page) [
    | false ↦ (p, false)
    | true ↦ chain (land_items y account p page.items) (λ p'. elim (blank page.next_page_token) [
      | true ↦ (turned p', true)
      | false ↦ sync_pages y account left (turned p') page.next_page_token
    ])
  ]
]

-- The native ids of an account's rows.
unfoldable pub native_ids : Text → Text → List (ItemKey × CatalogueItem) → List Text
native_ids provider account [] = []
native_ids provider account ((key, item) ∷ rows) =
    let rest = native_ids provider account rows in
    if belongs provider account key then key.native_id ∷ rest else rest

abbrev event_of : Synchronizer → Text → Text → Bool → AvailabilityEvent
event_of y account entry_id present = record {
  account_id = account;
  provider = y.provider;
  entry_id = entry_id;
  present = present;
}

-- `notifyAvailability`, with the check of the envelope.
unfoldable pub notify_availability : Synchronizer → Text → Caches → Text → Bool → Caches
notify_availability y account s native_id present =
    if not y.wired then s else elim (lookup_entry s.registry y.provider native_id) [
      | none ↦ s
      | some none ↦ s
      | some (some entry_id) ↦
          if blank account || (blank y.provider || blank entry_id)
          then s
          else record s { events = s.events ++ (event_of y account entry_id present ∷ []) }
    ]

-- A row goes, and the departure is announced.
unfoldable pub depart : Synchronizer → Text → Caches → Text → Caches
depart y account s native_id =
    notify_availability y account
      (record s { rows = delete (key_of y.provider account native_id) s.rows }) native_id false

-- The departures of a list of ids, but those kept; the number of them comes along.
unfoldable pub drop_departed : Synchronizer → Text → List Text → List Text → Caches × ℕ → Caches × ℕ
drop_departed y account kept [] acc = acc
drop_departed y account kept (n ∷ ns) (s, removed) =
    drop_departed y account kept ns
      (if contains kept n then (s, removed) else (depart y account s n, suc removed))

unfoldable pub announce : Synchronizer → Text → List Text → List Text → Caches → Caches
announce y account known [] s = s
announce y account known (n ∷ ns) s =
    announce y account known ns
      (if contains known n then s else notify_availability y account s n true)

unfoldable pub reconcile : Synchronizer → Text → List Text → List Text → Caches → Caches × ℕ
reconcile y account prev seen s =
    let (s', removed) = drop_departed y account seen prev (s, 0) in
    (announce y account prev seen s', removed)

abbrev pub completed : Synchronizer → Text → ℕ → Progress → Caches × ℕ → Caches × Option Stats
completed y account now p (s, removed) = (
  record s {
    manifests =
        insert (record { provider = y.provider; account_id = account })
          (record { last_complete_sync = now; items = p.items }) s.manifests;
  },
  some (record { items = p.items; pages = p.pages; removed = removed }),
)

abbrev pub finished : Synchronizer → Text → ℕ → List Text → Progress × Bool → Caches × Option Stats
finished y account now prev (p, false) = (p.caches, none)
finished y account now prev (p, true) =
    completed y account now p (reconcile y account prev p.seen p.caches)

abbrev pub begun : Caches → Progress
begun s = record { caches = s; seen = []; items = 0; pages = 0 }

-- `SyncAccount`; a result `none` is an error.
unfoldable pub sync_account : Synchronizer → ℕ → Caches → Text → Caches × Option Stats
sync_account y now s account =
    finished y account now (native_ids y.provider account s.rows)
      (sync_pages y account max_pages (begun s) [])
