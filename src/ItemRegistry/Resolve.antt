-- ===== src/ItemRegistry/Resolve.antt =====
-- `Resolve` of core/internal/itemregistry/registry.go and what it calls. The store's own failures are
-- left out: a table is read and written as it stands.
use abcmovies.Base.{
  ℕ, suc, false, not, ◌||◌, List, [], ◌∷◌, Text, ◌==◌, blank, if◌then◌else◌, Option, none, some,
  lookup, insert, text_key,
}
use abcmovies.Identity.Title.{Options}
use abcmovies.Identity.Proof.{Proof, proof_of, same_proof}
use abcmovies.ItemRegistry.Records.{
  CatalogueItem, metadata_of, validate_catalogue_item, MappingRecord, ConflictRecord, Status,
  status_unchanged, status_updated, MergeConflictEvent, Outcome, MappingKey, AliasKey, mapping_key,
  alias_key, title_key, ext_key, Registry, Draws,
}
use abcmovies.ItemRegistry.Entries.{place}

-- `New`
unfoldable pub new : Text → Options → Registry
new owner_id opts = record {
  entries = [];
  mappings = [];
  aliases = [];
  title_index = [];
  ext_index = [];
  conflicts = [];
  owner_id = owner_id;
  opts = opts;
}

abbrev pub key_of : Text → CatalogueItem → MappingKey
key_of provider item = record { provider = provider; native_id = item.native_id }

abbrev pub set_mapping : MappingKey → Text → ℕ → Proof → Registry → Registry
set_mapping key entry_id generation proof r =
    let next : MappingRecord = record {
      entry_id = entry_id;
      generation = generation;
      proof = proof;
    } in
    record r { mappings = insert key next r.mappings }

-- The first mapping of an item.
abbrev pub map_first : MappingKey → Proof → Registry × Text × Status → Registry × Outcome
map_first key proof (r, entry_id, status) = (
  set_mapping key entry_id 1 proof r,
  record {
    entry_id = entry_id;
    status = status;
    recycled = false;
    superseded_entry_id = [];
    events = [];
  },
)

abbrev pub record_conflict : MappingKey → MappingRecord → Draws → Registry → Registry
record_conflict key cur draws r =
    let conflict : ConflictRecord = record {
      provider = key.provider;
      native_id = key.native_id;
      entry_id = cur.entry_id;
      recorded_at = draws.now;
    } in
    record r { conflicts = insert draws.conflict_id conflict r.conflicts }

abbrev pub retain : MappingKey → MappingRecord → Registry → Registry
retain key cur r =
    let old : AliasKey = record { mapping = key; generation = cur.generation } in
    record r { aliases = insert old cur.entry_id r.aliases }

abbrev pub conflict_events : MappingKey → MappingRecord → Registry → List MergeConflictEvent
conflict_events key cur r =
    if blank r.owner_id
    then []
    else record {
      user_id = r.owner_id;
      provider = key.provider;
      provider_id = key.native_id;
      entry_id = cur.entry_id;
    }
      ∷ []

-- What is kept of a mapping that is replaced: an alias of its generation, and a conflict where the
-- item moved to another entry.
abbrev pub retire : MappingKey → MappingRecord → Draws → Text → Registry → Registry
retire key cur draws entry_id r =
    retain key cur (if entry_id == cur.entry_id then r else record_conflict key cur draws r)

-- A mapping whose proof no longer matches: the old generation becomes an alias, and a move to
-- another entry is a conflict.
abbrev pub remap :
    MappingKey → MappingRecord → Proof → Draws → Registry × Text × Status → Registry × Outcome
remap key cur proof draws (r, entry_id, status) =
    let moved = not (entry_id == cur.entry_id) in
    (
      set_mapping key entry_id (suc cur.generation) proof (retire key cur draws entry_id r),
      record {
        entry_id = entry_id;
        status = if moved then status else status_updated;
        recycled = moved;
        superseded_entry_id = if moved then cur.entry_id else [];
        events = if moved then conflict_events key cur r else [];
      },
    )

abbrev pub unchanged : MappingRecord → Outcome
unchanged cur = record {
  entry_id = cur.entry_id;
  status = status_unchanged;
  recycled = false;
  superseded_entry_id = [];
  events = [];
}

abbrev pub item_proof : CatalogueItem → Proof
item_proof item = proof_of item.kind (metadata_of item) item.external_ids

-- `none` is an error, which leaves the registry as it was.
unfoldable pub resolve : Registry → Text → CatalogueItem → Draws → Option (Registry × Outcome)
resolve r provider item draws =
    if not (validate_catalogue_item item) || blank provider
    then none
    else elim (lookup (key_of provider item) r.mappings) [
      | none ↦ elim (place r provider item (item_proof item) draws) [
        | none ↦ none
        | some placed ↦ some (map_first (key_of provider item) (item_proof item) placed)
      ]
      | some cur ↦
          if same_proof r.opts cur.proof (item_proof item)
          then some (r, unchanged cur)
          else elim (place r provider item (item_proof item) draws) [
            | none ↦ none
            | some placed ↦ some (remap (key_of provider item) cur (item_proof item) draws placed)
          ]
    ]

-- `Lookup`; the outer `none` is an error.
unfoldable pub lookup_entry : Registry → Text → Text → Option (Option Text)
lookup_entry r provider native_id =
    if blank provider || blank native_id
    then none
    else elim (lookup (record { provider = provider; native_id = native_id }) r.mappings) [
      | none ↦ some none
      | some rec ↦ some (some rec.entry_id)
    ]

unfoldable pub alias : Registry → Text → Text → ℕ → Option Text
alias r provider native_id generation =
    lookup
      (record {
        mapping = record { provider = provider; native_id = native_id };
        generation = generation;
      })
      r.aliases
