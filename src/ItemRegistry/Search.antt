-- ===== src/ItemRegistry/Search.antt =====
-- Which entry of core/internal/itemregistry/registry.go an item merges into (`findTarget`).
use abcmovies.Base.{
  ℕ, Bool, false, List, [], ◌∷◌, ◌++◌, Text, eqb, if◌then◌else◌, Option, none, some, contains,
  lookup, text_key, map,
}
use abcmovies.Identity.Title.{normalize_title}
use abcmovies.Identity.Match.{ExternalId, Item, usable, decide}
use abcmovies.ItemRegistry.Records.{
  CatalogueItem, metadata_of, EntryRecord, TitleKey, ExtKey, mapping_key, alias_key, title_key,
  ext_key, Registry,
}

-- `e.item()`
unfoldable pub entry_item : EntryRecord → Item
entry_item e = record {
  kind = e.kind;
  external_ids = map (λ c. some (record { namespace = c.namespace; value = c.value })) e.claims;
  metadata = record {
    title = e.title;
    year = e.year;
    directors = e.directors;
    cast = e.cast;
    original_language = e.original_language;
    movie = if eqb e.runtime_minutes 0 then none else some e.runtime_minutes;
  };
  alt_titles = [];
}

-- The item as `findTarget` compares it.
abbrev pub live_item : CatalogueItem → Item
live_item item = record {
  kind = item.kind;
  external_ids = item.external_ids;
  metadata = metadata_of item;
  alt_titles = [];
}

unfoldable pub merges_into : Registry → Item → Text → Bool
merges_into r live entry_id = elim (lookup entry_id r.entries) [
  | none ↦ false
  | some rec ↦ (decide r.opts live (entry_item rec)).merge
]

-- `List` on an index prefix: the ids under it, in the order that the store gives them.
abbrev pub listed : Option (List Text) → List Text
listed none = []
listed (some ids) = ids

unfoldable pub append_unique_ids : List Text → List Text → List Text
append_unique_ids order [] = order
append_unique_ids order (id ∷ ids) =
    append_unique_ids (if contains order id then order else order ++ (id ∷ [])) ids

-- The entries that share an external id, in the order of the item's ids.
unfoldable pub ext_candidates : Registry → List Text → List (Option ExternalId) → List Text
ext_candidates r order [] = order
ext_candidates r order (none ∷ ids) = ext_candidates r order ids
ext_candidates r order (some x ∷ ids) =
    let key : ExtKey = record { namespace = x.namespace; value = x.value } in
    let rows = if usable (some x) then listed (lookup key r.ext_index) else [] in
    ext_candidates r (append_unique_ids order rows) ids

-- The first candidate that the item merges into.
unfoldable pub first_merging : Registry → Item → List Text → Option Text
first_merging r live [] = none
first_merging r live (id ∷ ids) =
    let rest = first_merging r live ids in if merges_into r live id then some id else rest

abbrev pub title_key_of : Registry → Text → ℕ → TitleKey
title_key_of r title kind = record { norm_title = normalize_title r.opts title; kind = kind }

unfoldable pub find_target : Registry → CatalogueItem → Option Text
find_target r item =
    let live = live_item item in
    let key = title_key_of r (metadata_of item).title item.kind in
    elim (first_merging r live (ext_candidates r [] item.external_ids)) [
      | some id ↦ some id
      | none ↦ first_merging r live (append_unique_ids [] (listed (lookup key r.title_index)))
    ]
