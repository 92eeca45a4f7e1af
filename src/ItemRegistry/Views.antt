-- ===== src/ItemRegistry/Views.antt =====
-- What core/internal/itemregistry/registry.go shows of an entry.
use abcmovies.Base.{
  ℕ, List, map, Text, blank, if◌then◌else◌, Option, none, some, lookup, text_key, sort_strings,
}
use abcmovies.ItemRegistry.Records.{IdClaim, Registry}

pub record Canonical : Type 0 where
  pub kind : ℕ
  pub title : Text
  pub year : ℕ
  pub claims : List IdClaim

abbrev identity_claim : IdClaim → IdClaim
identity_claim c = record c { suppliers = sort_strings c.suppliers }

-- The outer `none` is an error, the inner one an unknown entry.
unfoldable pub canonical : Registry → Text → Option (Option Canonical)
canonical r entry_id = if blank entry_id then none else elim (lookup entry_id r.entries) [
  | none ↦ some none
  | some rec ↦ some (
      some (record {
        kind = rec.kind;
        title = rec.title;
        year = rec.year;
        claims = map identity_claim rec.claims;
      }))
]
