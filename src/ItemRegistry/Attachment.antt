-- ===== src/ItemRegistry/Attachment.antt =====
-- Which entry `Resolve` of core/internal/itemregistry/registry.go attaches an item to.
use abcmovies.Base.{
  inl, inr, ◌⊎◌, ◌≡◌, refl, true, false, List, [], ◌∷◌, Text, blank, some, lookup, insert,
  lookup-insert, suc, text_key, arith, Option-cases, Bool-cases,
}
use abcmovies.Identity.Match.{Item}
use abcmovies.Identity.Proof.{Proof, same_proof}
use abcmovies.Identity.Evidence.{SameWork, merge-decide_iff}
use abcmovies.ItemRegistry.Records.{
  MappingKey, MappingRecord, CatalogueItem, metadata_of, validate_catalogue_item, mapping_key,
  EntryRecord, Status, status_created, status_attached, status_unchanged, Outcome, Registry, Draws,
  title_key,
}
use abcmovies.ItemRegistry.Search.{
  find_target, merges_into, first_merging, ext_candidates, append_unique_ids, listed, title_key_of,
  live_item, entry_item,
}
use abcmovies.ItemRegistry.Entries.{put_entry, absorb, absorbed, founded, place}
use abcmovies.ItemRegistry.Resolve.{resolve, item_proof, key_of, map_first, remap, unchanged}

first_merging-merges :
    (r : Registry) (live : Item) (ids : List Text) (id : Text)
    → first_merging r live ids ≡ some id
    → merges_into r live id ≡ true
unfolding first_merging
first_merging-merges r live [] id h = absurd (ground arith)
first_merging-merges r live (i ∷ ids) id h = ground (arith, first_merging-merges r live ids id)

find_target-merges :
    (r : Registry) (item : CatalogueItem) (id : Text)
    → find_target r item ≡ some id
    → merges_into r (live_item item) id ≡ true
unfolding find_target
find_target-merges r item id h = ground (
  arith,
  first_merging-merges r (live_item item) (ext_candidates r [] item.external_ids) id,
  first_merging-merges r (live_item item)
      (append_unique_ids []
        (listed (lookup (title_key_of r (metadata_of item).title item.kind) r.title_index)))
      id,
)

-- The entry is there, and the item and it are the same work.
abbrev pub Belongs : Registry → CatalogueItem → Text → Type 0
Belongs r item id =
    (rec : EntryRecord) × (lookup id r.entries ≡ some rec)
    × SameWork r.opts (live_item item) (entry_item rec)

merges_into-Belongs :
    (r : Registry) (item : CatalogueItem) (id : Text)
    → merges_into r (live_item item) id ≡ true
    → Belongs r item id
unfolding merges_into
merges_into-Belongs r item id h = elim (Option-cases (lookup id r.entries)) [
  | inl gone ↦ absurd (ground (arith, gone))
  | inr (rec, found) ↦ (
    rec,
    found,
    (merge-decide_iff r.opts (live_item item) (entry_item rec)).0 (ground (arith, found)),
  )
]

-- A candidate never vanishes before it absorbs the item: an entry is always found or founded.
place-answers :
    (r : Registry) (provider : Text) (item : CatalogueItem) (proof : Proof) (draws : Draws)
    → (placed : Registry × Text × Status) × (place r provider item proof draws ≡ some placed)
      × ((placed.1 ≡ draws.entry_id) ⊎ Belongs r item placed.1)
unfolding place absorb
place-answers r provider item proof draws = elim (Option-cases (find_target r item)) [
  | inl nowhere ↦ (
    (put_entry r (founded draws.entry_id proof item provider), draws.entry_id, status_created),
    ground (arith, nowhere),
    inl refl,
  )
  | inr (id, target) ↦
      let (rec, there, same) =
        merges_into-Belongs r item id (find_target-merges r item id target) in
      (
        (put_entry r (absorbed rec item provider), id, status_attached),
        ground (arith, target, there),
        inr (rec, there, same),
      )
]

-- The item has a mapping whose proof matches, and the answer is its entry, with nothing changed.
pub record IsUnchanged (r : Registry) (provider : Text) (item : CatalogueItem) (after : Registry)
    (outcome : Outcome) : Type 0 where
  pub cur : MappingRecord
  pub found : lookup (key_of provider item) r.mappings ≡ some cur
  pub matches : same_proof r.opts cur.proof (item_proof item) ≡ true
  pub entry : outcome.entry_id ≡ cur.entry_id
  pub status : outcome.status ≡ status_unchanged
  pub kept : after ≡ r

-- The item has no mapping whose proof matches; its answer is the new entry, or one that was there and
-- is the same work, and the item is mapped to it by its own proof.
pub record IsPlaced (r : Registry) (provider : Text) (item : CatalogueItem) (draws : Draws)
    (after : Registry) (outcome : Outcome) : Type 0 where
  pub unmatched :
      (cur : MappingRecord)
      → lookup (key_of provider item) r.mappings ≡ some cur
      → same_proof r.opts cur.proof (item_proof item) ≡ false
  pub entry : (outcome.entry_id ≡ draws.entry_id) ⊎ Belongs r item outcome.entry_id
  pub mapping : MappingRecord
  pub mapped : lookup (key_of provider item) after.mappings ≡ some mapping
  pub names : mapping.entry_id ≡ outcome.entry_id
  pub proves : mapping.proof ≡ item_proof item

mapped_after :
    (key : MappingKey) (m : MappingRecord) (mappings : List (MappingKey × MappingRecord))
    → lookup key (insert key m mappings) ≡ some m
mapped_after key m mappings = ground (arith, lookup-insert key key m mappings)

pub resolve-Belongs :
    (r : Registry) (provider : Text) (item : CatalogueItem) (draws : Draws)
    → validate_catalogue_item item ≡ true
    → blank provider ≡ false
    → (answer : Registry × Outcome) × (resolve r provider item draws ≡ some answer)
      × (IsUnchanged r provider item answer.0 answer.1
          ⊎ IsPlaced r provider item draws answer.0 answer.1)
unfolding resolve
resolve-Belongs r provider item draws valid named =
    let key = key_of provider item in
    let ((after, entry_id, status), there, right) =
      place-answers r provider item (item_proof item) draws in
    elim (Option-cases (lookup key r.mappings)) [
      | inl new ↦ (
        map_first key (item_proof item) (after, entry_id, status),
        ground (arith, valid, named, new, there),
        inr (record {
          unmatched = λ cur found. absurd (ground (arith, new, found));
          entry = right;
          mapping = record { entry_id = entry_id; generation = 1; proof = item_proof item };
          mapped = mapped_after key _ after.mappings;
          names = refl;
          proves = refl;
        }),
      )
      | inr (cur, found) ↦ elim (Bool-cases (same_proof r.opts cur.proof (item_proof item))) [
        | inl same ↦ (
          (r, unchanged cur),
          ground (arith, valid, named, found, same),
          inl (record {
            cur = cur;
            found = found;
            matches = same;
            entry = refl;
            status = refl;
            kept = refl;
          }),
        )
        | inr differs ↦ (
          remap key cur (item_proof item) draws (after, entry_id, status),
          ground (arith, valid, named, found, differs, there),
          inr (record {
            unmatched = λ old is. ground (arith, found, is, differs);
            entry = right;
            mapping = record {
              entry_id = entry_id;
              generation = suc cur.generation;
              proof = item_proof item;
            };
            mapped = mapped_after key _ _;
            names = refl;
            proves = refl;
          }),
        )
      ]
    ]
