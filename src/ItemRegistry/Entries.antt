-- ===== src/ItemRegistry/Entries.antt =====
-- How an item founds an entry of core/internal/itemregistry/registry.go or is absorbed by one.
use abcmovies.Base.{
  ◌||◌, List, [], ◌∷◌, Text, blank, eqb, if◌then◌else◌, Option, none, some, contains, lookup,
  insert, text_key,
}
use abcmovies.Identity.Match.{runtime_minutes}
use abcmovies.Identity.Proof.{Proof}
use abcmovies.ItemRegistry.Records.{
  CatalogueItem, metadata_of, IdClaim, EntryRecord, Status, status_created, status_attached,
  TitleKey, ExtKey, mapping_key, alias_key, title_key, ext_key, Registry, Draws,
}
use abcmovies.ItemRegistry.Claims.{union_claims, union_strings}
use abcmovies.ItemRegistry.Search.{find_target, title_key_of, listed}

abbrev pub add_id : Text → List Text → List Text
add_id id ids = if contains ids id then ids else id ∷ ids

abbrev pub put_title : Text → TitleKey → Registry → Registry
put_title id key r = if blank key.norm_title then r else record r {
  title_index = insert key (add_id id (listed (lookup key r.title_index))) r.title_index;
}

unfoldable pub put_claims :
    Text → List IdClaim → List (ExtKey × List Text) → List (ExtKey × List Text)
put_claims id [] index = index
put_claims id (c ∷ cs) index =
    let key : ExtKey = record { namespace = c.namespace; value = c.value } in
    put_claims id cs (
      if blank c.namespace || blank c.value
      then index
      else insert key (add_id id (listed (lookup key index))) index)

unfoldable pub put_entry : Registry → EntryRecord → Registry
put_entry r rec =
    let r' = put_title rec.id (title_key_of r rec.title rec.kind) r in
    record r' {
      entries = insert rec.id rec r.entries;
      ext_index = put_claims rec.id rec.claims r.ext_index;
    }

abbrev pub absorbed : EntryRecord → CatalogueItem → Text → EntryRecord
absorbed rec item supplier =
    let md = metadata_of item in
    record rec {
      claims = union_claims rec.claims item.external_ids supplier;
      directors = union_strings rec.directors md.directors;
      cast = union_strings rec.cast md.cast;
      original_language =
          if blank rec.original_language then md.original_language else rec.original_language;
      runtime_minutes =
          if eqb rec.runtime_minutes 0 then runtime_minutes md else rec.runtime_minutes;
    }

-- `none` where the entry is not there.
unfoldable pub absorb : Registry → Text → CatalogueItem → Text → Option Registry
absorb r entry_id item supplier = elim (lookup entry_id r.entries) [
  | none ↦ none
  | some rec ↦ some (put_entry r (absorbed rec item supplier))
]

-- The entry that a first-seen item founds.
abbrev pub founded : Text → Proof → CatalogueItem → Text → EntryRecord
founded id proof item supplier =
    let md = metadata_of item in
    record {
      id = id;
      kind = proof.kind;
      title = proof.title;
      year = proof.year;
      directors = union_strings [] md.directors;
      cast = union_strings [] md.cast;
      original_language = md.original_language;
      runtime_minutes = runtime_minutes md;
      claims = union_claims [] proof.external_ids supplier;
    }

-- The entry that the item belongs to now, created or attached to.
unfoldable pub place :
    Registry → Text → CatalogueItem → Proof → Draws → Option (Registry × Text × Status)
place r provider item proof draws = elim (find_target r item) [
  | none ↦
      some
        (put_entry r (founded draws.entry_id proof item provider), draws.entry_id, status_created)
  | some target ↦ elim (absorb r target item provider) [
    | none ↦ none
    | some r' ↦ some (r', target, status_attached)
  ]
]
