-- ===== src/Library/Coverage.antt =====
-- What a derivation of core/internal/library/library.go says that a user can reach, and by which
-- account, against the items of the reaches.
use abcmovies.Base.{
  ℕ, ◌≡◌, refl, sym, ap, ◌∙◌, subst, Bool, false, ◌&&◌, ◌||◌, List, [], ◌∷◌, Text, ◌==◌, Option,
  some, none, lookup, text_key, arith, Option-cases, any, contains, contains-any, any-sort_strings,
  sort_strings, lookup-map_values, inl, inr, Text-discrete,
}
use abcmovies.ItemRegistry.Records.{CatalogueItem}
use abcmovies.ItemRegistry.Resolve.{lookup_entry}
use abcmovies.ItemRegistry.Views.{Canonical, canonical}
use abcmovies.SourceCache.Table.{list_items}
use abcmovies.Library.Reach.{Reach, derivable}
use abcmovies.Library.Derive.{
  LibraryEntry, CoverageRow, Sources, Build, Draft, observed, enter, build_item, build_items,
  build_reaches, finished, listed_entries, no_draft, derive, cover_key, via_of,
}
use abcmovies.Library.Draft.{drafted, IsBuild, IsDraft, enter-IsDraft, drafted-enter}

-- The entry that the registry gives an item.
abbrev pub entry_of : Sources → Reach → CatalogueItem → Option Text
entry_of w r item = elim (lookup_entry w.registry r.provider item.native_id) [
  | none ↦ none
  | some none ↦ none
  | some (some id) ↦ elim (canonical w.registry id) [
    | none ↦ none
    | some none ↦ none
    | some (some canon) ↦ some id
  ]
]

abbrev pub is : Text → Option Text → Bool
is id none = false
is id (some j) = j == id

-- An item of a reach stands for an entry, under a coverage key and by a way.
abbrev pub supports : Sources → Text → Text → Text → Reach → CatalogueItem → Bool
supports w id key via r item =
    is id (entry_of w r item) && ((cover_key r item == key) && (via_of r == via))

abbrev row_has : Text → Option CoverageRow → Bool
row_has via none = false
row_has via (some row) = contains row.via via

-- A library shows an entry with a coverage row that names a way.
abbrev pub shows : List LibraryEntry → Text → Text → Text → Bool
shows entries id key via = any (λ e. (e.id == id) && row_has via (lookup key e.coverage)) entries

-- A draft that was made from another by items that support what is new in it.
abbrev Grown : Draft → Draft → (Text → Text → Text → Bool) → Type 0
Grown d d' more =
    IsDraft d'
    × ((id key via : Text) → drafted d' id key via ≡ (drafted d id key via || more id key via))

Grown-same :
    (d d' : Draft) (more : Text → Text → Text → Bool)
    → IsDraft d
    → d ≡ d'
    → ((id key via : Text) → more id key via ≡ false)
    → Grown d d' more
Grown-same d d' more v e none_more = (
  subst IsDraft e v,
  λ id key via.
      ap (λ (b : Draft). drafted b id key via) (sym e) ∙ ground (arith, none_more id key via),
)

Grown-enter :
    (w : Sources) (r : Reach) (now : ℕ) (id : Text) (canon : Canonical) (item : CatalogueItem)
    (d d' : Draft)
    → IsDraft d
    → enter w r now id canon item d ≡ d'
    → entry_of w r item ≡ some id
    → Grown d d' (λ j key via. supports w j key via r item)
Grown-enter w r now id canon item d d' v e mapped = (
  subst IsDraft e (enter-IsDraft w r now id canon item d v),
  λ j key via.
      ap (λ (b : Draft). drafted b j key via) (sym e)
      ∙ drafted-enter w r now id canon item d j key via
      ∙ ap
          (λ o. drafted d j key via || (is j o && ((cover_key r item == key) && (via_of r == via))))
          (sym mapped),
)

build_item-Grown :
    (w : Sources) (r : Reach) (now : ℕ) (d d' : Draft) (item : CatalogueItem)
    → IsDraft d
    → build_item w r now d item ≡ some d'
    → Grown d d' (λ id key via. supports w id key via r item)
unfolding build_item
build_item-Grown w r now d d' item v h =
    elim (Option-cases (lookup_entry w.registry r.provider item.native_id)) [
      | inl failed ↦ absurd (ground (arith, failed))
      | inr (none, unmapped) ↦
          Grown-same d d' _ v (ground (arith, unmapped)) (λ j key via. ground (arith, unmapped))
      | inr (some id, mapped) ↦ elim (Option-cases (canonical w.registry id)) [
        | inl failed ↦ absurd (ground (arith, mapped, failed))
        | inr (none, unknown) ↦
            Grown-same d d' _ v (ground (arith, mapped, unknown))
              (λ j key via. ground (arith, mapped, unknown))
        | inr (some canon, known) ↦
            Grown-enter w r now id canon item d d' v (ground (arith, mapped, known))
              (ground (arith, mapped, known))
      ]
    ]

build_items-Grown :
    (w : Sources) (r : Reach) (now : ℕ) (items : List CatalogueItem) (d d' : Draft)
    → IsDraft d
    → build_items w r now d items ≡ some d'
    → Grown d d' (λ id key via. any (supports w id key via r) items)
unfolding build_items
build_items-Grown w r now [] d d' v h = Grown-same d d' _ v (ground arith) (λ j key via. refl)
build_items-Grown w r now (item ∷ items) d d' v h =
    elim (Option-cases (build_item w r now d item)) [
      | inl failed ↦ absurd (ground (arith, failed))
      | inr (m, done) ↦
          let (u, more) = build_item-Grown w r now d m item v done in
          let (t, rest) = build_items-Grown w r now items m d' u (ground (arith, done)) in
          (t, λ id key via. ground (arith, more id key via, rest id key via))
    ]

build_reaches-Grown :
    (w : Sources) (now : ℕ) (l : List Reach) (d d' : Draft)
    → IsDraft d
    → build_reaches w now d l ≡ some d'
    → Grown d d' (λ id key via.
      any (λ r. any (supports w id key via r) (list_items r.provider r.account_id w.cache)) l)
unfolding build_reaches
build_reaches-Grown w now [] d d' v h = Grown-same d d' _ v (ground arith) (λ j key via. refl)
build_reaches-Grown w now (r ∷ l) d d' v h =
    elim (Option-cases (build_items w r now d (list_items r.provider r.account_id w.cache))) [
      | inl failed ↦ absurd (ground (arith, failed))
      | inr (m, done) ↦
          let (u, more) =
            build_items-Grown w r now (list_items r.provider r.account_id w.cache) d m v done in
          let (t, rest) = build_reaches-Grown w now l m d' u (ground (arith, done)) in
          (t, λ id key via. ground (arith, more id key via, rest id key via))
    ]

no_draft-IsDraft : IsDraft no_draft
unfolding lookup contains
no_draft-IsDraft = record { ordered = λ id. refl; built = λ id b h. absurd (ground arith) }

sorted_same : (l : List Text) (t : Text) → contains (sort_strings l) t ≡ contains l t
sorted_same l t =
    contains-any (sort_strings l) t ∙ any-sort_strings (λ x. x == t) l ∙ sym (contains-any l t)

no_draft-drafted : (id key via : Text) → drafted no_draft id key via ≡ false
unfolding lookup
no_draft-drafted id key via = refl

row_has-finished :
    (id key via : Text) (b : Build)
    → IsBuild id b
    → row_has via (lookup key (finished b).coverage) ≡ contains (observed key b) via
unfolding finished contains
row_has-finished id key via b v = ground (
  arith,
  v.rows key,
  lookup-map_values (λ k row. record row { via = sort_strings (observed k b) }) key
      b.entry.coverage,
  sorted_same (observed key b) via,
)

finished-id : (id : Text) (b : Build) → IsBuild id b → (finished b).id ≡ id
unfolding finished
finished-id id b v = v.named

shows-listed_entries :
    (builds : List (Text × Build)) (ids : List Text) (id key via : Text)
    → ((j : Text) (b : Build) → lookup j builds ≡ some b → IsBuild j b)
    → shows (listed_entries builds ids) id key via
      ≡ (any (λ j. j == id) ids && drafted (record { order = ids; builds = builds }) id key via)
unfolding listed_entries
shows-listed_entries builds [] id key via v = refl
shows-listed_entries builds (j ∷ ids) id key via v =
    let rest = shows-listed_entries builds ids id key via v in
    elim (Option-cases (lookup j builds)) [
      | inl gone ↦ elim (Text-discrete j id) [
        | yes e ↦ ground (arith, e, gone, rest, ap (λ t. lookup t builds) e)
        | no other ↦ ground (arith, other, gone, rest)
      ]
      | inr (b, there) ↦
          let row = row_has-finished j key via b (v j b there) in
          let same_id = finished-id j b (v j b there) in
          elim (Text-discrete j id) [
            | yes e ↦ ground (arith, e, there, rest, row, same_id, ap (λ t. lookup t builds) e)
            | no other ↦ ground (arith, other, there, rest, same_id)
          ]
    ]

-- A derived library shows an entry, under a coverage key and by a way, exactly if an account that the
-- user may use lists an item with that key and that way which the registry maps to the entry.
pub derive_lem :
    (w : Sources) (reaches : List (Text × Reach)) (user : Text) (now : ℕ)
    (entries : List LibraryEntry)
    → derive w reaches user now ≡ some entries
    → (id key via : Text)
    → shows entries id key via
      ≡ any
          (λ r. any (supports w id key via r) (list_items r.provider r.account_id w.cache))
          (derivable reaches user)
unfolding derive
derive_lem w reaches user now entries h id key via =
    elim (Option-cases (build_reaches w now no_draft (derivable reaches user))) [
      | inl failed ↦ absurd (ground (arith, failed))
      | inr (d, done) ↦
          let (v, grown) =
            build_reaches-Grown w now (derivable reaches user) no_draft d no_draft-IsDraft done in
          let e : listed_entries d.builds (sort_strings d.order) ≡ entries = ground (arith, done) in
          ap (λ l. shows l id key via) (sym e)
          ∙ shows-listed_entries d.builds (sort_strings d.order) id key via v.built
          ∙ ap (λ b. b && drafted d id key via)
              (any-sort_strings (λ j. j == id) d.order ∙ sym (contains-any d.order id))
          ∙ ground (arith, v.ordered id, grown id key via, no_draft-drafted id key via)
    ]
