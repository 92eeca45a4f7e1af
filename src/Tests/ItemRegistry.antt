-- ===== src/Tests/ItemRegistry.antt =====
-- Concrete registries and items for the theorems on core/internal/itemregistry.
use abcmovies.Base.{
  ◌≡◌, refl, false, List, [], ◌∷◌, text, Text-discrete, blank, Option, none, some, lookup, insert,
  contains, text_lt, insert_text, sort_strings, ℕ_discrete,
}
use abcmovies.Identity.Title.{normalize_title, join}
use abcmovies.Identity.Match.{
  ExternalId, decide, corroboration_match, same_kind, title_eq, titles_agree, years_match,
  shares_any, first_signal,
}
use abcmovies.Identity.Proof.{proof_of, same_proof, same_id_set, same_strings, id_keys}
use abcmovies.ItemRegistry.Records.{
  CatalogueItem, Registry, Draws, Outcome, status_created, status_attached, status_unchanged,
  validate_catalogue_item, MappingKey-discrete, AliasKey-discrete, TitleKey-discrete,
  ExtKey-discrete,
}
use abcmovies.ItemRegistry.Claims.{union_claims, union_claim, union_strings, unseen, confirm, known}
use abcmovies.ItemRegistry.Search.{
  entry_item, merges_into, append_unique_ids, ext_candidates, first_merging, find_target,
}
use abcmovies.ItemRegistry.Entries.{put_claims, put_entry, absorb, place}
use abcmovies.ItemRegistry.Resolve.{new, resolve, lookup_entry, key_of, alias}
use abcmovies.ItemRegistry.History.{resolve-again}
use abcmovies.ItemRegistry.Aliases.{Kept, resolve-Kept, new-Ordered}
use abcmovies.Tests.Identity.{options, imdb, heat_data}

unfoldable pub registry_program : Unit {0}
unfolding Text-discrete ℕ_discrete blank lookup insert contains text_lt insert_text sort_strings
    normalize_title join decide corroboration_match same_kind title_eq titles_agree years_match
    shares_any first_signal proof_of same_proof same_id_set same_strings id_keys
    validate_catalogue_item MappingKey-discrete AliasKey-discrete TitleKey-discrete ExtKey-discrete
    union_claims union_claim union_strings unseen confirm known entry_item merges_into
    append_unique_ids ext_candidates first_merging find_target put_claims put_entry absorb place new
    resolve lookup_entry alias
registry_program = tt

abbrev pub item : List (Option ExternalId) → CatalogueItem
item ids = record {
  native_id = text "7";
  kind = 1;
  metadata = some (heat_data (text "mann" ∷ []));
  external_ids = ids;
}

abbrev pub draws : Draws
draws = record { entry_id = text "le_1"; conflict_id = text "c1"; now = 5 }

abbrev empty : Registry
empty = new (text "owner") options

abbrev created : Option (Registry × Outcome)
created = resolve empty (text "jellyfin") (item []) draws

-- The registry and the outcome of an answer; those of an error are never looked at.
abbrev table : Option (Registry × Outcome) → Registry
table none = empty
table (some (r, out)) = r

abbrev outcome : Option (Registry × Outcome) → Outcome
outcome none = record {
  entry_id = [];
  status = status_unchanged;
  recycled = false;
  superseded_entry_id = [];
  events = [];
}
outcome (some (r, out)) = out

founds : (outcome created).status ≡ status_created
unfolding registry_program
founds = refl

-- Another provider's copy of the film joins the entry.
attaches :
    (outcome
      (resolve (table created) (text "stremio") (item (imdb (text "tt1") ∷ [])) draws)).status
    ≡ status_attached
unfolding registry_program
attaches = refl

resolve-again_example :
    (out' : Outcome) × (resolve (table created) (text "jellyfin") (item []) draws
      ≡ some (table created, out'))
    × (out'.entry_id ≡ (outcome created).entry_id)
    × (out'.status ≡ status_unchanged)
unfolding registry_program
resolve-again_example =
    resolve-again empty (table created) (text "jellyfin") (item []) draws draws (outcome created)
      refl

resolve-Kept_example : Kept empty (table created) (key_of (text "jellyfin") (item []))
unfolding registry_program
resolve-Kept_example =
    resolve-Kept empty (table created) (text "jellyfin") (item []) draws (outcome created)
      (new-Ordered (text "owner") options) refl
