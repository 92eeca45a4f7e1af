-- ===== src/Library/Draft.antt =====
-- How an item enters the draft of a library in core/internal/library/library.go.
use abcmovies.Base.{
  ℕ, ◌≡◌, refl, ap, subst, Bool, true, false, ◌&&◌, ◌||◌, List, [], ◌∷◌, ◌++◌, Text, ◌==◌, Option,
  some, none, lookup, lookup-insert, text_key, arith, Option-cases, if◌then◌else◌, contains,
  contains-append, inl, inr, Text-discrete,
}
use abcmovies.ItemRegistry.Records.{CatalogueItem}
use abcmovies.ItemRegistry.Views.{Canonical}
use abcmovies.Library.Reach.{Reach}
use abcmovies.Library.Derive.{
  Sources, Build, Draft, new_build, observed, add_via, row_of, observe, enter, cover_key, via_of,
}

abbrev seen_in : Text → List (Text × List Text) → List Text
seen_in key observers = elim (lookup key observers) [ none ↦ [] | some vias ↦ vias ]

abbrev pub is_some : {A : Type 0} → Option A → Bool
is_some none = false
is_some (some a) = true

abbrev pub drafted : Draft → Text → Text → Text → Bool
drafted d id key via = elim (lookup id d.builds) [
  | none ↦ false
  | some b ↦ contains (observed key b) via
]

-- A build has its entry's id, and a row for what was observed.
pub record IsBuild (id : Text) (b : Build) : Type 0 where
  pub named : b.entry.id ≡ id
  pub rows : (key : Text) → lookup key b.entry.coverage ≡ none → observed key b ≡ []

observed-add_via :
    (k v : Text) (b : Build) (key via : Text)
    → contains (seen_in key (add_via k v b)) via
      ≡ (contains (observed key b) via || ((k == key) && (v == via)))
observed-add_via k v b key via = elim (Text-discrete k key) [
  | no other ↦ ground (arith, other, lookup-insert k key (observed k b ++ (v ∷ [])) b.observers)
  | yes e ↦ elim (Text-discrete v via) [
    | yes d ↦ ground (
      arith,
      e,
      d,
      ap (λ t. seen_in t b.observers) e,
      ap (contains (observed k b)) d,
      lookup-insert k key (observed k b ++ (v ∷ [])) b.observers,
      contains-append (observed k b) v via,
    )
    | no away ↦ ground (
      arith,
      e,
      away,
      ap (λ t. seen_in t b.observers) e,
      lookup-insert k key (observed k b ++ (v ∷ [])) b.observers,
      contains-append (observed k b) v via,
    )
  ]
]

observed-observe :
    (r : Reach) (now : ℕ) (item : CatalogueItem) (b : Build) (key via : Text)
    → contains (observed key (observe r now item b)) via
      ≡ (contains (observed key b) via || ((cover_key r item == key) && (via_of r == via)))
unfolding observe
observed-observe r now item b key via = observed-add_via (cover_key r item) (via_of r) b key via

observe-IsBuild :
    (id : Text) (r : Reach) (now : ℕ) (item : CatalogueItem) (b : Build)
    → IsBuild id b
    → IsBuild id (observe r now item b)
unfolding observe
observe-IsBuild id r now item b v = record {
  named = v.named;
  rows = λ key gone. elim (Text-discrete (cover_key r item) key) [
    | yes e ↦ absurd (
        ground (
          arith,
          e,
          lookup-insert (cover_key r item) key (row_of b item now) b.entry.coverage,
          ap (λ k. lookup k b.entry.coverage) e,
        ))
    | no other ↦ ground (
      arith,
      other,
      v.rows key,
      lookup-insert (cover_key r item) key (row_of b item now) b.entry.coverage,
      lookup-insert (cover_key r item) key (observed (cover_key r item) b ++ (via_of r ∷ []))
          b.observers,
    )
  ];
}

new_build-IsBuild :
    (w : Sources) (id : Text) (canon : Canonical) → IsBuild id (new_build w id canon)
unfolding lookup
new_build-IsBuild w id canon = record { named = refl; rows = λ key gone. refl }

-- A draft has its entries in order and all of them in form.
pub record IsDraft (d : Draft) : Type 0 where
  pub ordered : (id : Text) → contains d.order id ≡ is_some (lookup id d.builds)
  pub built : (id : Text) (b : Build) → lookup id d.builds ≡ some b → IsBuild id b

-- The build that an item is entered in.
abbrev found_in : Sources → Text → Canonical → Draft → Build
found_in w id canon d = elim (lookup id d.builds) [ none ↦ new_build w id canon | some b ↦ b ]

lookup-enter :
    (w : Sources) (r : Reach) (now : ℕ) (id : Text) (canon : Canonical) (item : CatalogueItem)
    (d : Draft) (j : Text)
    → lookup j (enter w r now id canon item d).builds
      ≡ (if id == j then some (observe r now item (found_in w id canon d)) else lookup j d.builds)
unfolding enter
lookup-enter w r now id canon item d j =
    ground (arith, lookup-insert id j (observe r now item (found_in w id canon d)) d.builds)

contains-enter :
    (w : Sources) (r : Reach) (now : ℕ) (id : Text) (canon : Canonical) (item : CatalogueItem)
    (d : Draft) (j : Text)
    → contains d.order id ≡ is_some (lookup id d.builds)
    → contains (enter w r now id canon item d).order j ≡ (contains d.order j || (id == j))
unfolding enter
contains-enter w r now id canon item d j h = elim (Text-discrete id j) [
  | yes e ↦ ground (arith, e, ap (contains d.order) e, contains-append d.order id j)
  | no other ↦ ground (arith, other, contains-append d.order id j)
]

found_in-IsBuild :
    (w : Sources) (id : Text) (canon : Canonical) (d : Draft)
    → IsDraft d
    → IsBuild id (found_in w id canon d)
found_in-IsBuild w id canon d v = elim (Option-cases (lookup id d.builds)) [
  | inl gone ↦ rw (found_in, gone) (new_build-IsBuild w id canon)
  | inr (b, there) ↦ rw (found_in, there) (v.built id b there)
]

pub enter-IsDraft :
    (w : Sources) (r : Reach) (now : ℕ) (id : Text) (canon : Canonical) (item : CatalogueItem)
    (d : Draft)
    → IsDraft d
    → IsDraft (enter w r now id canon item d)
enter-IsDraft w r now id canon item d v = record {
  ordered = λ j. ground (
    arith,
    v.ordered j,
    contains-enter w r now id canon item d j (v.ordered id),
    lookup-enter w r now id canon item d j,
  );
  built = λ j b there. elim (Text-discrete id j) [
    | yes e ↦
        let own : observe r now item (found_in w id canon d) ≡ b =
          ground (arith, e, lookup-enter w r now id canon item d j) in
        subst (λ k. IsBuild k b) e
          (subst (IsBuild id) own
            (observe-IsBuild id r now item _ (found_in-IsBuild w id canon d v)))
    | no other ↦ v.built j b (ground (arith, other, lookup-enter w r now id canon item d j))
  ];
}

pub drafted-enter :
    (w : Sources) (r : Reach) (now : ℕ) (id : Text) (canon : Canonical) (item : CatalogueItem)
    (d : Draft) (i key via : Text)
    → drafted (enter w r now id canon item d) i key via
      ≡ (drafted d i key via || ((id == i) && ((cover_key r item == key) && (via_of r == via))))
unfolding contains lookup
drafted-enter w r now id canon item d i key via = elim (Text-discrete id i) [
  | yes e ↦ ground (
    arith,
    e,
    ap (λ j. lookup j d.builds) e,
    lookup-enter w r now id canon item d i,
    observed-observe r now item (found_in w id canon d) key via,
  )
  | no other ↦ ground (arith, other, lookup-enter w r now id canon item d i)
]
