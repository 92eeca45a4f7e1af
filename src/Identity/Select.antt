-- ===== src/Identity/Select.antt =====
-- core/internal/identity/select.go: which catalogue candidate may enrich an entry.
use abcmovies.Base.{
  ℕ, suc, Bool, false, not, ◌&&◌, List, [], ◌∷◌, map, ◌==◌, blank, eqb, if◌then◌else◌, Option, none,
  some, any,
}
use abcmovies.Identity.Title.{Options}
use abcmovies.Identity.Match.{
  Verdict, ExternalId, Item, usable, same_kind, titles_agree, years_match, decide, kind_movie,
}

-- Values that disagree under one namespace.
abbrev pub disagrees : Option ExternalId → Option ExternalId → Bool
disagrees (some x) (some y) =
    y.namespace == x.namespace && (not (blank y.value) && not (y.value == x.value))
disagrees x y = false

unfoldable pub contradicts : List (Option ExternalId) → List (Option ExternalId) → Bool
contradicts xs ys = any (λ x. usable x && any (λ y. disagrees x y) ys) xs

-- What no gate of `Screen` drops.
unfoldable pub survives : Options → Item → Item → Bool
survives o entry c =
    if not (same_kind entry.kind c.kind)
    then false
    else if not (titles_agree o entry c)
    then false
    else if eqb entry.kind kind_movie && not (years_match entry.metadata.year c.metadata.year)
    then false
    else not (contradicts entry.external_ids c.external_ids)

unfoldable pub screen_from : Options → Item → ℕ → List Item → List ℕ
screen_from o entry i [] = []
screen_from o entry i (c ∷ cs) =
    let rest = screen_from o entry (suc i) cs in if survives o entry c then i ∷ rest else rest

unfoldable pub screen : Options → Item → List Item → List ℕ
screen o entry candidates = screen_from o entry 0 candidates

abbrev pub verdicts : Options → Item → List Item → List Verdict
verdicts o entry candidates = map (λ c. decide o entry c) candidates

-- The outcome of one loop of `Adopt`.
pub data Scan : Type 0 where
  absent : Scan
  tie : Scan
  one : ℕ → Scan

unfoldable pub scan : (Verdict → Bool) → Option ℕ → ℕ → List Verdict → Scan
scan p none i [] = absent
scan p (some j) i [] = one j
scan p none i (v ∷ vs) = scan p (if p v then some i else none) (suc i) vs
scan p (some j) i (v ∷ vs) = let rest = scan p (some j) (suc i) vs in if p v then tie else rest

abbrev pub is_corroborated : Verdict → Bool
is_corroborated v = v.corroborated

abbrev pub is_merge : Verdict → Bool
is_merge v = v.merge

-- `none` is `(-1, false)`.
unfoldable pub adopt : Options → Item → List Item → Option ℕ
adopt o entry candidates =
    let vs = verdicts o entry candidates in
    elim (scan is_corroborated none 0 vs) [
      | tie ↦ none
      | one i ↦ some i
      | absent ↦ elim (scan is_merge none 0 vs) [ one i ↦ some i | absent ↦ none | tie ↦ none ]
    ]
