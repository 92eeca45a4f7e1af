-- ===== src/Library/Changes.antt =====
-- What the derivation of core/internal/library/library.go reads, where one account changes.
use abcmovies.Base.{
  ℕ, ◌≡◌, refl, ap, ◌∙◌, List, [], ◌∷◌, ◌++◌, text_key, lookup, insert, Text, Option, some, none,
  ◌⊎◌, inl, inr, In, Option-cases, next_cong, ◌≢◌,
}
use abcmovies.ItemRegistry.Records.{CatalogueItem}
use abcmovies.ItemRegistry.Resolve.{lookup_entry}
use abcmovies.ItemRegistry.Views.{Canonical, canonical}
use abcmovies.SourceCache.Table.{list_items}
use abcmovies.Library.Reach.{Reach}
use abcmovies.Library.Derive.{
  Sources, Draft, build_item, build_items, build_reaches, enter, first_ref, Build, new_build,
  observe,
}

-- What the derivation reads of an item is the same: its entry, that entry's view, and the reference of
-- its record.
pub record SeenAlike (w w' : Sources) (provider : Text) (item : CatalogueItem) : Type 0 where
  pub entry :
      lookup_entry w'.registry provider item.native_id
      ≡ lookup_entry w.registry provider item.native_id
  pub view :
      (id : Text)
      → lookup_entry w.registry provider item.native_id ≡ some (some id)
      → canonical w'.registry id ≡ canonical w.registry id
  pub ref :
      (id : Text) (canon : Canonical)
      → lookup_entry w.registry provider item.native_id ≡ some (some id)
      → canonical w.registry id ≡ some (some canon)
      → first_ref w'.resolve canon.claims ≡ first_ref w.resolve canon.claims

-- Other sources, which differ in one account only: the other accounts list the same items, and what
-- is read of these is the same.
pub record OnlyAccount (provider account_id : Text) (w w' : Sources) : Type 0 where
  pub rows :
      (p a : Text)
      → (p ≢ provider) ⊎ (a ≢ account_id)
      → list_items p a w'.cache ≡ list_items p a w.cache
  pub alike :
      (p a : Text) (item : CatalogueItem)
      → (p ≢ provider) ⊎ (a ≢ account_id)
      → In item (list_items p a w.cache)
      → SeenAlike w w' p item

enter-alike :
    (w w' : Sources) (r : Reach) (now : ℕ) (id : Text) (canon : Canonical) (item : CatalogueItem)
    (d : Draft)
    → first_ref w'.resolve canon.claims ≡ first_ref w.resolve canon.claims
    → enter w' r now id canon item d ≡ enter w r now id canon item d
unfolding enter
enter-alike w w' r now id canon item d e =
    ap
      (λ b. elim (lookup id d.builds) as (λ (x : Option Build). Draft) [
        | none ↦ record {
          order = d.order ++ (id ∷ []);
          builds = insert id (observe r now item b) d.builds;
        }
        | some old ↦ record d { builds = insert id (observe r now item old) d.builds }
      ])
      same_build
  where
    same_build : new_build w' id canon ≡ new_build w id canon
    same_build = rw e refl

build_item-alike :
    (w w' : Sources) (r : Reach) (now : ℕ) (d : Draft) (item : CatalogueItem)
    → SeenAlike w w' r.provider item
    → build_item w' r now d item ≡ build_item w r now d item
unfolding build_item
build_item-alike w w' r now d item s =
    elim (Option-cases (lookup_entry w.registry r.provider item.native_id)) [
      | inl failed ↦ rw (build_item, s.entry, failed) refl
      | inr (o, found) ↦ elim (Option-cases o) [
        | inl unmapped ↦ rw (build_item, s.entry, found, unmapped) refl
        | inr (id, mapped) ↦
            let names : lookup_entry w.registry r.provider item.native_id ≡ some (some id) =
              found ∙ ap some mapped in
            elim (Option-cases (canonical w.registry id)) [
              | inl failed ↦ rw (build_item, s.entry, names, s.view id names, failed) refl
              | inr (v, viewed) ↦ elim (Option-cases v) [
                | inl gone ↦ rw (build_item, s.entry, names, s.view id names, viewed, gone) refl
                | inr (canon, is) ↦
                    let shown : canonical w.registry id ≡ some (some canon) = viewed ∙ ap some is in
                    rw (build_item, s.entry, names, s.view id names, shown)
                      (ap some
                        (enter-alike w w' r now id canon item d (s.ref id canon names shown)))
              ]
            ]
      ]
    ]

build_items-alike :
    (w w' : Sources) (r : Reach) (now : ℕ) (items : List CatalogueItem) (d : Draft)
    → ((item : CatalogueItem) → In item items → SeenAlike w w' r.provider item)
    → build_items w' r now d items ≡ build_items w r now d items
unfolding build_items
build_items-alike w w' r now [] d h = refl
build_items-alike w w' r now (item ∷ items) d h =
    ap
      (λ o. elim o as (λ (x : Option Draft). Option Draft) [
        | none ↦ none
        | some d' ↦ build_items w' r now d' items
      ])
      (build_item-alike w w' r now d item (h item (inl refl)))
    ∙ next_cong (build_item w r now d item) (λ d'. build_items w' r now d' items)
        (λ d'. build_items w r now d' items)
        (λ d'. build_items-alike w w' r now items d' (λ other i. h other (inr i)))

pub build_reaches-alike :
    (w w' : Sources) (now : ℕ) (l : List Reach) (d : Draft)
    → ((r : Reach)
        → In r l
        → (list_items r.provider r.account_id w'.cache ≡ list_items r.provider r.account_id w.cache)
          × ((item : CatalogueItem)
              → In item (list_items r.provider r.account_id w.cache)
              → SeenAlike w w' r.provider item))
    → build_reaches w' now d l ≡ build_reaches w now d l
unfolding build_reaches
build_reaches-alike w w' now [] d h = refl
build_reaches-alike w w' now (r ∷ l) d h =
    let items = list_items r.provider r.account_id w.cache in
    let (rows, seen) = h r (inl refl) in
    ap
      (λ o. elim o as (λ (x : Option Draft). Option Draft) [
        | none ↦ none
        | some d' ↦ build_reaches w' now d' l
      ])
      (ap (build_items w' r now d) rows ∙ build_items-alike w w' r now items d seen)
    ∙ next_cong (build_items w r now d items) (λ d'. build_reaches w' now d' l)
        (λ d'. build_reaches w now d' l)
        (λ d'. build_reaches-alike w w' now l d' (λ s i. h s (inr i)))
