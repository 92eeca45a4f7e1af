-- ===== src/Tests/Library.antt =====
-- A server with one account and one item for the theorems on core/internal/library.
use abcmovies.Base.{
  ℕ, ◌≡◌, ◌≢◌, ◌⊎◌, In, subst, refl, true, List, [], ◌∷◌, Text, text, Text-discrete, ℕ_discrete,
  blank, Option, none, some, lookup, insert, contains, any, text_lt, insert_text, sort_strings,
  map_values, select_pairs, arith,
}
use abcmovies.Accounts.Record.{Visibility}
use abcmovies.Identity.Proof.{proof_of}
use abcmovies.ItemRegistry.Records.{
  CatalogueItem, EntryRecord, MappingKey, MappingRecord, MappingKey-discrete, mapping_key,
}
use abcmovies.ItemRegistry.Resolve.{new, lookup_entry}
use abcmovies.ItemRegistry.Views.{canonical}
use abcmovies.SourceCache.Table.{ItemKey, key_of, list_items}
use abcmovies.Library.Reach.{Reach, authorized, insert_reach, snapshot, derivable}
use abcmovies.Library.Derive.{
  LibraryEntry, Sources, derive, build_reaches, build_items, build_item, enter, observe, finished,
  listed_entries, first_ref, join_comma, entry_kind,
}
use abcmovies.Library.Service.{
  Service, new_service, add_reaches, add_reach, library, rebuild_user, set_reach_sharing,
  unresolved, sweep_user_caches, invalidate_account,
}
use abcmovies.Library.Changes.{OnlyAccount}
use abcmovies.Library.Refinement.{State, Run, stays, goes_on, reads, shares, publishes, library-Run}
use abcmovies.Library.Coverage.{shows, supports, derive_lem}
use abcmovies.Tests.Identity.{options, heat_data}
use abcmovies.Tests.ItemRegistry.{item}

program : Unit {0}
unfolding Text-discrete ℕ_discrete blank lookup insert contains text_lt insert_text sort_strings
    map_values select_pairs new lookup_entry canonical MappingKey-discrete list_items authorized
    insert_reach snapshot derivable derive build_reaches build_items build_item enter observe
    finished listed_entries first_ref join_comma entry_kind new_service add_reaches add_reach
    library rebuild_user set_reach_sharing unresolved sweep_user_caches
program = tt

abbrev ann : Text
ann = text "ann"

abbrev film : CatalogueItem
film = item []

abbrev row : ItemKey
row = key_of (text "jellyfin") (text "a") (text "7")

abbrev entry : EntryRecord
entry = record {
  id = text "le_1";
  kind = 1;
  title = text "heat";
  year = 1995;
  directors = [];
  cast = [];
  original_language = [];
  runtime_minutes = 0;
  claims = [];
}

abbrev mapping : MappingKey
mapping = record { provider = text "jellyfin"; native_id = text "7" }

abbrev mapped : MappingRecord
mapped = record { entry_id = text "le_1"; generation = 1; proof = proof_of 1 (heat_data []) [] }

abbrev sources : Sources
sources = record {
  cache = (row, film) ∷ [];
  registry = record (new (text "owner") options) {
    entries = (text "le_1", entry) ∷ [];
    mappings = (mapping, mapped) ∷ [];
  };
  resolve = λ key. none;
}

abbrev reach : Reach
reach = record {
  provider = text "jellyfin";
  account_id = text "a";
  owner = ann;
  visibility = Visibility.private;
  members = [];
}

abbrev reaches : List (Text × Reach)
reaches = (text "a", reach) ∷ []

abbrev entries_of : Option (List LibraryEntry) → List LibraryEntry
entries_of none = []
entries_of (some entries) = entries

abbrev entries : List LibraryEntry
entries = entries_of (derive sources reaches ann 5)

derived : derive sources reaches ann 5 ≡ some entries
unfolding program
derived = refl

shown : shows entries (text "le_1") (text "jellyfin:7") (text "a:jellyfin:host") ≡ true
unfolding program
shown = refl

derive_lem_example :
    shows entries (text "le_1") (text "jellyfin:7") (text "a:jellyfin:host")
    ≡ any
        (λ r.
          any
            (supports sources (text "le_1") (text "jellyfin:7") (text "a:jellyfin:host") r)
            (list_items r.provider r.account_id sources.cache))
        (derivable reaches ann)
derive_lem_example =
    derive_lem sources reaches ann 5 entries derived (text "le_1") (text "jellyfin:7")
      (text "a:jellyfin:host")

-- The account is read by its owner, shared with another user, and then synced.
abbrev boot : Service
boot = record { reaches = reaches; libraries = []; marked = [] }

abbrev filled : Service
filled = record { reaches = reaches; libraries = (ann, entries) ∷ []; marked = text "le_1" ∷ [] }

abbrev widened : Service
widened = record {
  reaches =
      (text "a", record reach { visibility = Visibility.shared; members = text "bob" ∷ [] }) ∷ [];
  libraries = [];
  marked = text "le_1" ∷ [];
}

abbrev state : Service → Sources → State
state s w = record { service = s; sources = w }

booted : new_service (reach ∷ []) ≡ some boot
unfolding program
booted = refl

filled_by : library boot sources ann 5 ≡ some (filled, entries)
unfolding program
filled_by = refl

widened_by : set_reach_sharing filled (text "a") Visibility.shared (text "bob" ∷ []) ≡ some widened
unfolding program
widened_by = refl

-- A sync has replaced the account's item by another one, which was resolved to the same entry.
abbrev second_mapping : MappingKey
second_mapping = record { provider = text "jellyfin"; native_id = text "8" }

abbrev synced : Sources
synced = record sources {
  cache =
      (key_of (text "jellyfin") (text "a") (text "8"), record film { native_id = text "8" }) ∷ [];
  registry = record sources.registry {
    mappings = (second_mapping, mapped) ∷ (mapping, mapped) ∷ [];
  };
}

listed_elsewhere :
    (p a : Text) → (p ≢ text "jellyfin") ⊎ (a ≢ text "a") → list_items p a sources.cache ≡ []
unfolding list_items
listed_elsewhere p a other = ground arith

only_a : OnlyAccount (text "jellyfin") (text "a") sources synced
unfolding list_items
only_a = record {
  rows = λ p a other. ground arith;
  alike = λ p a i other inside. absurd (subst (In i) (listed_elsewhere p a other) inside);
}

story :
    Run
      (state boot sources)
      (state (invalidate_account widened (text "jellyfin") (text "a")) synced)
story =
    goes_on _ _ _
      (goes_on _ _ _ (goes_on _ _ _ (stays _) (reads boot filled sources ann 5 entries filled_by))
        (shares filled widened sources (text "a") Visibility.shared (text "bob" ∷ []) widened_by))
      (publishes widened sources synced (text "jellyfin") (text "a") only_a)

library-Run_example :
    let s = invalidate_account widened (text "jellyfin") (text "a") in
    ((derived : List LibraryEntry)
      → derive synced s.reaches ann 6 ≡ some derived
      → (t : Service) × (es : List LibraryEntry) × (library s synced ann 6 ≡ some (t, es)))
    × ((t : Service) (es : List LibraryEntry)
        → library s synced ann 6 ≡ some (t, es)
        → (at : ℕ) × (derive synced s.reaches ann at ≡ some es))
library-Run_example =
    library-Run (state boot sources)
      (state (invalidate_account widened (text "jellyfin") (text "a")) synced) ann 6 refl story
