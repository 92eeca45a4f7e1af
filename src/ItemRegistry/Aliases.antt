-- ===== src/ItemRegistry/Aliases.antt =====
-- `Resolve` of core/internal/itemregistry/registry.go never loses where an item used to map to.
use abcmovies.Base.{
  ◌<◌, ◌≢◌, suc, ◌≡◌, refl, ap, Text, ◌==◌, if◌then◌else◌, none, some, lookup, text_key, arith,
  lookup-insert,
}
use abcmovies.Identity.Title.{Options}
use abcmovies.Identity.Proof.{Proof}
use abcmovies.ItemRegistry.Records.{
  CatalogueItem, MappingRecord, Outcome, MappingKey, AliasKey, mapping_key, alias_key, Registry,
  Draws,
}
use abcmovies.ItemRegistry.Resolve.{
  new, key_of, item_proof, resolve, set_mapping, retain, record_conflict,
}
use abcmovies.ItemRegistry.History.{
  Resolution, known_proof, first_seen, changed_proof, resolve-cases, place-tables,
}

-- An alias is of a generation before its mapping's.
unfoldable pub Ordered : Registry → Type 0
Ordered r =
    (k : AliasKey) (id : Text)
    → lookup k r.aliases ≡ some id
    → (rec : MappingRecord) × (lookup k.mapping r.mappings ≡ some rec)
      × (k.generation < rec.generation)

-- What a call keeps: the order, every alias, and the mapping of every other item.
unfoldable pub Kept : Registry → Registry → MappingKey → Type 0
Kept r r' key =
    Ordered r'
    × ((k : AliasKey) (id : Text) → lookup k r.aliases ≡ some id → lookup k r'.aliases ≡ some id)
    × ((k : MappingKey) → k ≢ key → lookup k r'.mappings ≡ lookup k r.mappings)

first-Kept :
    (r r1 : Registry) (key : MappingKey) (entry_id : Text) (proof : Proof)
    → Ordered r
    → lookup key r.mappings ≡ none
    → r1.mappings ≡ r.mappings
    → r1.aliases ≡ r.aliases
    → Kept r (set_mapping key entry_id 1 proof r1) key
unfolding Kept Ordered
first-Kept r r1 key entry_id proof ordered new m a =
    let next : MappingRecord = record { entry_id = entry_id; generation = 1; proof = proof } in
    (
      λ k id h.
          ground (arith, a, m, ordered k id, new, lookup-insert key k.mapping next r1.mappings),
      λ k id h. ground (arith, a, h),
      λ k other. ground (arith, m, other, lookup-insert key k next r1.mappings),
    )

remap-Kept :
    (r r1 : Registry) (key : MappingKey) (cur : MappingRecord) (entry_id : Text) (proof : Proof)
    → Ordered r
    → lookup key r.mappings ≡ some cur
    → r1.mappings ≡ r.mappings
    → r1.aliases ≡ r.aliases
    → Kept r (set_mapping key entry_id (suc cur.generation) proof (retain key cur r1)) key
unfolding Kept Ordered
remap-Kept r r1 key cur entry_id proof ordered found m a =
    let next : MappingRecord = record {
      entry_id = entry_id;
      generation = suc cur.generation;
      proof = proof;
    } in
    let old : AliasKey = record { mapping = key; generation = cur.generation } in
    (
      λ k id h. ground (
        arith,
        a,
        m,
        ordered k id,
        found,
        lookup-insert key k.mapping next r1.mappings,
        lookup-insert old k cur.entry_id r1.aliases,
      ),
      λ k id h.
          ground (arith, a, h, ordered k id h, found, lookup-insert old k cur.entry_id r1.aliases),
      λ k other. ground (arith, m, other, lookup-insert key k next r1.mappings),
    )

-- History keeps resolving: where every alias is older than its mapping, as in a new registry, a
-- call that answers keeps it so, overwrites no alias, and leaves the mappings of other items as
-- they were.
pub resolve-Kept :
    (r r' : Registry) (provider : Text) (item : CatalogueItem) (draws : Draws) (out : Outcome)
    → Ordered r
    → resolve r provider item draws ≡ some (r', out)
    → Kept r r' (key_of provider item)
unfolding Kept
resolve-Kept r r' provider item draws out ordered h =
    by_case (resolve-cases r r' provider item draws out h)
  where
    by_case : Resolution r r' provider item draws out → Kept r r' (key_of provider item)
    by_case (known_proof cur found same done) =
        rw (ap (λ x. x.0) done) (ordered, λ k id e. e, λ k other. refl)
    by_case (first_seen (r1, id, status) new there done) =
        let (m, a, o) = place-tables r r1 provider item (item_proof item) draws id status there in
        rw (ap (λ x. x.0) done)
          (first-Kept r r1 (key_of provider item) id (item_proof item) ordered new m a)
    by_case (changed_proof cur (r1, id, status) found there done) =
        let (m, a, o) = place-tables r r1 provider item (item_proof item) draws id status there in
        rw (ap (λ x. x.0) done) (
          remap-Kept r
            (if id == cur.entry_id then r1 else record_conflict (key_of provider item) cur draws r1)
            (key_of provider item) cur id (item_proof item) ordered found (ground (arith, m))
            (ground (arith, a)))

pub new-Ordered : (owner_id : Text) (opts : Options) → Ordered (new owner_id opts)
unfolding Ordered new lookup
new-Ordered owner_id opts k id h = absurd (ground arith)
