-- ===== src/Tests/SourceCache.antt =====
-- A provider of two pages for the theorems on core/internal/sourcecache.
use abcmovies.Base.{
  ℕ, zero, suc, ◌≡◌, ap, refl, true, List, [], ◌∷◌, length, Text, text, Text-discrete, ℕ_discrete,
  text_key, blank, contains, Option, none, some, lookup, insert, delete,
}
use abcmovies.ItemRegistry.Records.{CatalogueItem, Registry, Outcome, validate_catalogue_item}
use abcmovies.ItemRegistry.Resolve.{new, resolve, lookup_entry}
use abcmovies.ItemRegistry.Attachment.{resolve-Belongs}
use abcmovies.SourceCache.Landing.{is_some}
use abcmovies.SourceCache.Table.{ItemKey-discrete, item_key, key_of, list_items}
use abcmovies.SourceCache.Paths.{item_path, manifest_path}
use abcmovies.SourceCache.Sync.{
  Account-discrete, Caches, Page, Stats, Synchronizer, land, land_items, sync_pages, sync_account,
  native_ids, notify_availability, drop_departed, depart, announce, reconcile, validate_page,
  unique_items, max_pages,
}
use abcmovies.SourceCache.Refresh.{
  all_valid, ingest_items, ingest_loop, refresh_items, refresh_loop, announce_arrivals,
}
use abcmovies.SourceCache.Items.{Resolves}
use abcmovies.SourceCache.Snapshot.{reported}
use abcmovies.SourceCache.Outcome.{IsSnapshot, marker, sync_account-IsSnapshot}
use abcmovies.Tests.Identity.{options}
use abcmovies.Tests.ItemRegistry.{item, draws, registry_program}

program : Unit {0}
unfolding Text-discrete ℕ_discrete blank contains lookup insert delete validate_catalogue_item new
    lookup_entry ItemKey-discrete list_items Account-discrete land land_items sync_pages
    sync_account native_ids notify_availability drop_departed depart announce reconcile
    validate_page unique_items all_valid ingest_items ingest_loop refresh_items refresh_loop
    announce_arrivals reported registry_program
program = tt

abbrev named : Text → CatalogueItem
named n = record (item []) { native_id = n }

abbrev pages : Text → ℕ → Text → Option Page
pages account zero token =
    some (record { items = named (text "1") ∷ []; next_page_token = text "n" })
pages account (suc calls) token =
    some (record { items = named (text "2") ∷ []; next_page_token = [] })

-- An availability check that answers with a valid item and then with one that is not.
abbrev half : Text → List Text → Option (List CatalogueItem)
half account ids = some (named (text "3") ∷ named [] ∷ [])

-- The item registry is the resolver.
abbrev registry_after : Option (Registry × Outcome) → Option Registry
registry_after none = none
registry_after (some (r, outcome)) = some r

abbrev resolve_item : Registry → CatalogueItem → Option Registry
resolve_item r i = registry_after (resolve r (text "jellyfin") i draws)

abbrev slot : Synchronizer
slot = record {
  provider = text "jellyfin";
  client = pages;
  refresh = some half;
  resolver = some resolve_item;
  wired = true;
}

abbrev broken : Synchronizer
broken = record slot { client = λ account calls token. none }

abbrev before : Caches
before = record {
  rows = (key_of (text "jellyfin") (text "a") (text "0"), named (text "0")) ∷ [];
  manifests = [];
  registry = new (text "owner") options;
  events = [];
}

slot-Resolves : Resolves slot
unfolding blank
slot-Resolves r i valid =
    let (answer, e, right) = resolve-Belongs r (text "jellyfin") i draws valid refl in
    ap (λ o. is_some (registry_after o)) e

both_reported :
    reported slot (text "a") max_pages 0 [] ≡ some (named (text "1") ∷ named (text "2") ∷ [])
unfolding program
both_reported = refl

synced :
    (sync_account slot 9 before (text "a")).1 ≡ some (record { items = 2; pages = 2; removed = 1 })
unfolding program
synced = refl

sync_account-IsSnapshot_example :
    let (t, result) = sync_account slot 9 before (text "a") in
    (Resolves slot
      → (items : List CatalogueItem) → reported slot (text "a") max_pages 0 [] ≡ some items
      → (stats : Stats) × (result ≡ some stats))
    × ((stats : Stats)
        → result ≡ some stats
        → (items : List CatalogueItem) × (reported slot (text "a") max_pages 0 [] ≡ some items)
          × IsSnapshot slot (text "a") items before t
          × (marker slot (text "a") t
              ≡ some (record { last_complete_sync = 9; items = length items })))
sync_account-IsSnapshot_example = sync_account-IsSnapshot slot 9 before (text "a") refl refl

fails : (sync_account broken 9 before (text "a")).1 ≡ none
unfolding program
fails = refl

-- Two accounts of which one's name has a slash can share a key.
collide :
    item_path (key_of (text "jellyfin") (text "a/b") (text "0"))
    ≡ item_path (key_of (text "jellyfin") (text "a") (text "b/0"))
unfolding item_path
collide = refl

-- An item may have the key of the completion marker.
taken_for_marker :
    item_path (key_of (text "jellyfin") (text "a") (text "_sync-manifest"))
    ≡ manifest_path (text "jellyfin") (text "a")
unfolding item_path manifest_path
taken_for_marker = refl

-- The refused availability check has written its first item all the same.
half_landed :
    let (t, result) = refresh_items slot before (text "a") (text "3" ∷ []) in
    (result ≡ none)
    × (lookup (key_of (text "jellyfin") (text "a") (text "3")) t.rows ≡ some (named (text "3")))
unfolding program
half_landed = (refl, refl)
