-- ===== src/Identity/Proof.antt =====
-- core/internal/identity/proof.go: the evidence that fixed an item's identity.
use abcmovies.Base.{
  ℕ, Bool, true, false, not, ◌&&◌, ◌||◌, List, [], ◌∷◌, ◌++◌, Text, ◌==◌, eqb, if◌then◌else◌,
  Option, none, some, sort_strings,
}
use abcmovies.Identity.Title.{Options, normalize_title}
use abcmovies.Identity.Match.{ExternalId, TitleMetadata, Item, usable}

pub record Proof : Type 0 where
  pub kind : ℕ
  pub title : Text
  pub year : ℕ
  pub external_ids : List (Option ExternalId)

unfoldable pub proof_of : ℕ → TitleMetadata → List (Option ExternalId) → Proof
proof_of kind md external_ids = record {
  kind = kind;
  title = md.title;
  year = md.year;
  external_ids = external_ids;
}

-- `namespace + "\x00" + value`
abbrev pub id_key : ExternalId → Text
id_key x = x.namespace ++ (0 ∷ x.value)

unfoldable pub id_keys : List (Option ExternalId) → List Text
id_keys [] = []
id_keys (none ∷ ids) = id_keys ids
id_keys (some x ∷ ids) = let rest = id_keys ids in if usable (some x) then id_key x ∷ rest else rest

-- The comparison of two slices, length and elements.
unfoldable pub same_strings : List Text → List Text → Bool
same_strings [] [] = true
same_strings (s ∷ l) (t ∷ m) = s == t && same_strings l m
same_strings l m = false

unfoldable pub same_id_set : List (Option ExternalId) → List (Option ExternalId) → Bool
same_id_set xs ys = same_strings (sort_strings (id_keys xs)) (sort_strings (id_keys ys))

unfoldable pub same_proof : Options → Proof → Proof → Bool
same_proof o a b =
    if not (eqb a.kind b.kind)
      || (not (normalize_title o a.title == normalize_title o b.title) || not (eqb a.year b.year))
    then false
    else same_id_set a.external_ids b.external_ids

-- `Proof.Item`
abbrev pub proof_item : Proof → Item
proof_item p = record {
  kind = p.kind;
  external_ids = p.external_ids;
  metadata = record {
    title = p.title;
    year = p.year;
    directors = [];
    cast = [];
    original_language = [];
    movie = none;
  };
  alt_titles = [];
}
