-- ===== src/Identity/Symmetry.antt =====
-- core/internal/identity/match.go: no side of a comparison counts for more than the other.
use abcmovies.Base.{
  inl, inr, ℕ, ◌≡◌, refl, sym, ◌∙◌, true, ◌&&◌, List, ◌∷◌, Text, ◌==◌, Option, none, some, any,
  arith, any-cong, any-swap, any-and, any-or, contains-any, Bool-cases,
}
use abcmovies.Identity.Title.{Options}
use abcmovies.Identity.Match.{
  ExternalId, TitleMetadata, Item, usable, same_assertion, corroboration_match, same_kind, title_eq,
  titles_agree, years_match, shares_any, first_signal, decide,
}

-- Every title that an item goes by.
abbrev pub forms : Item → List Text
forms i = i.metadata.title ∷ i.alt_titles

pub corroboration_match-pairs :
    (xs ys : List (Option ExternalId))
    → corroboration_match xs ys ≡ any (λ x. any (λ y. usable x && same_assertion x y) ys) xs
unfolding corroboration_match
corroboration_match-pairs xs ys =
    any-cong _ _ (λ x. any-and (usable x) (λ y. same_assertion x y) ys) xs

usable-same_assertion :
    (x y : Option ExternalId) → (usable x && same_assertion x y) ≡ (usable y && same_assertion y x)
usable-same_assertion none none = refl
usable-same_assertion none (some y) = ground arith
usable-same_assertion (some x) none = ground arith
usable-same_assertion (some x) (some y) = ground arith

pub corroboration_match_comm :
    (xs ys : List (Option ExternalId)) → corroboration_match xs ys ≡ corroboration_match ys xs
corroboration_match_comm xs ys =
    corroboration_match-pairs xs ys
    ∙ any-cong _ _ (λ x. any-cong _ _ (λ y. usable-same_assertion x y) ys) xs
    ∙ any-swap (λ x y. usable y && same_assertion y x) xs ys
    ∙ sym (corroboration_match-pairs ys xs)

pub titles_agree-forms :
    (o : Options) (a b : Item)
    → titles_agree o a b ≡ any (λ s. any (λ t. title_eq o s t) (forms b)) (forms a)
unfolding titles_agree
titles_agree-forms o a b = ground (
  arith,
  any-or (λ s. title_eq o s b.metadata.title) (λ s. any (λ t. title_eq o s t) b.alt_titles)
      a.alt_titles,
)

title_eq_comm : (o : Options) (s t : Text) → title_eq o s t ≡ title_eq o t s
unfolding title_eq
title_eq_comm o s t = ground arith

pub titles_agree_comm : (o : Options) (a b : Item) → titles_agree o a b ≡ titles_agree o b a
titles_agree_comm o a b =
    titles_agree-forms o a b
    ∙ any-cong _ _ (λ s. any-cong _ _ (λ t. title_eq_comm o s t) (forms b)) (forms a)
    ∙ any-swap (λ s t. title_eq o t s) (forms a) (forms b)
    ∙ sym (titles_agree-forms o b a)

shares_any-pairs : (xs ys : List Text) → shares_any xs ys ≡ any (λ y. any (λ x. x == y) xs) ys
unfolding shares_any
shares_any-pairs xs ys = any-cong _ _ (λ y. contains-any xs y) ys

shares_any_comm : (xs ys : List Text) → shares_any xs ys ≡ shares_any ys xs
shares_any_comm xs ys =
    shares_any-pairs xs ys
    ∙ any-cong _ _ (λ y. any-cong _ _ (λ x. ground arith) xs) ys
    ∙ any-swap (λ y x. y == x) ys xs
    ∙ sym (shares_any-pairs ys xs)

first_signal_comm : (a b : TitleMetadata) → first_signal a b ≡ first_signal b a
unfolding first_signal
first_signal_comm a b =
    ground (arith, shares_any_comm a.directors b.directors, shares_any_comm a.cast b.cast)

same_kind_comm : (a b : ℕ) → same_kind a b ≡ same_kind b a
unfolding same_kind
same_kind_comm a b = ground arith

years_match_comm : (a b : ℕ) → years_match a b ≡ years_match b a
unfolding years_match
years_match_comm a b = ground arith

pub same_kind-equal : (a b : ℕ) → same_kind a b ≡ true → a ≡ b
unfolding same_kind
same_kind-equal a b h = ground arith

-- Two items get the same verdict in either order: merged or not, for the same reason, by the same
-- signal.
pub decide_comm : (o : Options) (a b : Item) → decide o a b ≡ decide o b a
unfolding decide
decide_comm o a b = elim (Bool-cases (same_kind a.kind b.kind)) [
  | inl same ↦
      rw
        (
          sym (same_kind_comm a.kind b.kind),
          sym (corroboration_match_comm a.external_ids b.external_ids),
          sym (titles_agree_comm o a b),
          sym (years_match_comm a.metadata.year b.metadata.year),
          sym (first_signal_comm a.metadata b.metadata),
          sym (same_kind-equal a.kind b.kind same),
        )
        refl
  | inr differ ↦ ground (arith, differ, same_kind_comm a.kind b.kind)
]
