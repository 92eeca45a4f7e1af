-- ===== src/ItemRegistry/History.antt =====
-- What `Resolve` promises of the mapping table and the alias table.
use abcmovies.Base.{
  inl, inr, ℕ, suc, ◌≡◌, refl, ap, true, false, Text, blank, none, some, lookup, text_key, arith,
  lookup-insert, Option-cases, Bool-cases,
}
use abcmovies.Identity.Proof.{Proof, same_proof}
use abcmovies.Identity.Sameness.{same_proof_self}
use abcmovies.ItemRegistry.Records.{
  CatalogueItem, validate_catalogue_item, MappingRecord, Status, status_unchanged, Outcome,
  mapping_key, alias_key, Registry, Draws,
}
use abcmovies.ItemRegistry.Entries.{put_entry, absorb, place}
use abcmovies.ItemRegistry.Resolve.{
  key_of, item_proof, map_first, remap, unchanged, resolve, lookup_entry, set_mapping, retire,
}

-- Founding or absorbing leaves the mappings, the aliases and the options alone.
pub place-tables :
    (r r' : Registry) (provider : Text) (item : CatalogueItem) (proof : Proof) (draws : Draws)
    (entry_id : Text) (status : Status)
    → place r provider item proof draws ≡ some (r', entry_id, status)
    → (r'.mappings ≡ r.mappings) × (r'.aliases ≡ r.aliases) × (r'.opts ≡ r.opts)
unfolding place absorb put_entry
place-tables r r' provider item proof draws entry_id status h = ground arith

-- What a call that answers has done.
pub data Resolution (r r' : Registry) (provider : Text) (item : CatalogueItem) (draws : Draws)
    (out : Outcome) : Type 0 where
  known_proof :
      (cur : MappingRecord)
      → lookup (key_of provider item) r.mappings ≡ some cur
      → same_proof r.opts cur.proof (item_proof item) ≡ true
      → ◌≡◌ {A = Registry × Outcome} (r', out) (r, unchanged cur)
      → Resolution r r' provider item draws out
  first_seen :
      (placed : Registry × Text × Status)
      → lookup (key_of provider item) r.mappings ≡ none
      → place r provider item (item_proof item) draws ≡ some placed
      → ◌≡◌ {A = Registry × Outcome}
          (r', out)
          (map_first (key_of provider item) (item_proof item) placed)
      → Resolution r r' provider item draws out
  changed_proof :
      (cur : MappingRecord) (placed : Registry × Text × Status)
      → lookup (key_of provider item) r.mappings ≡ some cur
      → place r provider item (item_proof item) draws ≡ some placed
      → ◌≡◌ {A = Registry × Outcome}
          (r', out)
          (remap (key_of provider item) cur (item_proof item) draws placed)
      → Resolution r r' provider item draws out

module _ (r r' : Registry) (provider : Text) (item : CatalogueItem) (draws : Draws)
    (out : Outcome) where
  resolve-checked :
      resolve r provider item draws ≡ some (r', out)
      → (validate_catalogue_item item ≡ true) × (blank provider ≡ false)
  unfolding resolve
  resolve-checked h = ground arith

  pub resolve-cases :
      resolve r provider item draws ≡ some (r', out) → Resolution r r' provider item draws out
  unfolding resolve
  resolve-cases h =
      let (valid, named) = resolve-checked h in
      elim (Option-cases (lookup (key_of provider item) r.mappings)) [
        | inl new ↦ elim (Option-cases (place r provider item (item_proof item) draws)) [
          | inl failed ↦ absurd (ground (arith, valid, named, new, failed))
          | inr (placed, done) ↦
              first_seen placed new done (ground (arith, valid, named, new, done))
        ]
        | inr (cur, found) ↦ elim (Bool-cases (same_proof r.opts cur.proof (item_proof item))) [
          | inl same ↦ known_proof cur found same (ground (arith, valid, named, found, same))
          | inr differs ↦ elim (Option-cases (place r provider item (item_proof item) draws)) [
            | inl failed ↦ absurd (ground (arith, valid, named, found, differs, failed))
            | inr (placed, done) ↦
                changed_proof cur placed found done
                  (ground (arith, valid, named, found, differs, done))
          ]
        ]
      ]

-- The mapping that a call leaves for the item it resolved.
Current : Registry → Text → CatalogueItem → Text → Type 0
Current r provider item entry_id =
    (rec : MappingRecord) × (lookup (key_of provider item) r.mappings ≡ some rec)
    × (rec.entry_id ≡ entry_id)
    × (same_proof r.opts rec.proof (item_proof item) ≡ true)

set_mapping-Current :
    (r : Registry) (provider : Text) (item : CatalogueItem) (entry_id : Text) (generation : ℕ)
    → Current
        (set_mapping (key_of provider item) entry_id generation (item_proof item) r)
        provider
        item
        entry_id
unfolding Current
set_mapping-Current r provider item entry_id generation = (
  record { entry_id = entry_id; generation = generation; proof = item_proof item },
  ground (
    arith,
    lookup-insert (key_of provider item) (key_of provider item)
        (record { entry_id = entry_id; generation = generation; proof = item_proof item })
        r.mappings,
  ),
  refl,
  same_proof_self r.opts (item_proof item),
)

resolve-Current :
    (r r' : Registry) (provider : Text) (item : CatalogueItem) (draws : Draws) (out : Outcome)
    → Resolution r r' provider item draws out
    → Current r' provider item out.entry_id
unfolding Current
resolve-Current r r' provider item draws out (known_proof cur found same done) =
    rw (ap (λ x. x.0) done, ap (λ x. x.1) done) (cur, found, refl, same)
resolve-Current r r' provider item draws out (first_seen placed new there done) =
    rw (ap (λ x. x.0) done, ap (λ x. x.1) done)
      (set_mapping-Current placed.0 provider item placed.1 1)
resolve-Current r r' provider item draws out (changed_proof cur placed found there done) =
    rw (ap (λ x. x.0) done, ap (λ x. x.1) done)
      (set_mapping-Current (retire (key_of provider item) cur draws placed.1 placed.0) provider item
        placed.1 (suc cur.generation))

-- After a call that answers, `Lookup` finds the entry that it named.
pub resolve-lookup_entry :
    (r r' : Registry) (provider : Text) (item : CatalogueItem) (draws : Draws) (out : Outcome)
    → resolve r provider item draws ≡ some (r', out)
    → lookup_entry r' provider item.native_id ≡ some (some out.entry_id)
unfolding lookup_entry validate_catalogue_item Current
resolve-lookup_entry r r' provider item draws out h =
    let (valid, named) = resolve-checked r r' provider item draws out h in
    let (rec, found, e, same) =
      resolve-Current r r' provider item draws out (resolve-cases r r' provider item draws out h) in
    ground (arith, valid, named, found, e)

-- The same item again, with whatever draws, is a pure lookup: the registry is as it was and the
-- entry is the one of the first call.
pub resolve-again :
    (r r' : Registry) (provider : Text) (item : CatalogueItem) (draws draws' : Draws)
    (out : Outcome)
    → resolve r provider item draws ≡ some (r', out)
    → (out' : Outcome) × (resolve r' provider item draws' ≡ some (r', out'))
      × (out'.entry_id ≡ out.entry_id)
      × (out'.status ≡ status_unchanged)
unfolding resolve Current
resolve-again r r' provider item draws draws' out h =
    let (valid, named) = resolve-checked r r' provider item draws out h in
    let (rec, found, e, same) =
      resolve-Current r r' provider item draws out (resolve-cases r r' provider item draws out h) in
    (unchanged rec, ground (arith, valid, named, found, same), e, refl)
