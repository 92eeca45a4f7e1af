-- ===== src/SourceCache/Items.antt =====
-- What one page's items do in core/internal/sourcecache/sourcecache.go.
use abcmovies.Base.{
  ℕ, ◌+◌, ◌≡◌, refl, subst, sym, ap, ◌∙◌, Bool, true, false, ◌||◌, List, [], ◌∷◌, ◌++◌, length,
  Text, Text-discrete, text_key, contains, Option, none, some, lookup, arith,
}
use abcmovies.ItemRegistry.Records.{CatalogueItem, Registry, validate_catalogue_item}
use abcmovies.SourceCache.Table.{ItemKey, item_key}
use abcmovies.SourceCache.Sync.{
  Caches, Synchronizer, Progress, land, land_items, resolved, run_resolver, landed, chain, Page,
  validate_page, unique_items,
}
use abcmovies.SourceCache.Refresh.{all_valid}
use abcmovies.SourceCache.Landing.{latest, or_else, is_some, written, lookup-land}

-- The resolver, where there is one, resolves every valid item.
abbrev pub Resolves : Synchronizer → Type 0
Resolves y =
    (r : Registry) (item : CatalogueItem)
    → validate_catalogue_item item ≡ true
    → is_some (run_resolver y.resolver r item) ≡ true

-- The progress that a list of items makes.
pub record Made (y : Synchronizer) (account : Text) (p q : Progress) (items : List CatalogueItem)
    : Type 0 where
  pub rows :
      (k : ItemKey) → lookup k q.caches.rows ≡ written y account items k (lookup k p.caches.rows)
  pub seen : (n : Text) → contains q.seen n ≡ (contains p.seen n || is_some (latest n items))
  pub counted : q.items ≡ p.items + length items

latest-append :
    (n : Text) (xs ys : List CatalogueItem)
    → latest n (xs ++ ys) ≡ or_else (latest n ys) (latest n xs)
latest-append n [] ys = ground arith
latest-append n (x ∷ xs) ys = ground (arith, latest-append n xs ys)

length-append : (xs ys : List CatalogueItem) → length (xs ++ ys) ≡ length xs + length ys
length-append [] ys = omega arith
length-append (x ∷ xs) ys = omega (arith, length-append xs ys)

pub Made-trans :
    (y : Synchronizer) (account : Text) (p q r : Progress) (xs ys : List CatalogueItem)
    → Made y account p q xs
    → Made y account q r ys
    → Made y account p r (xs ++ ys)
Made-trans y account p q r xs ys m o = record {
  rows = λ k. ground (arith, m.rows k, o.rows k, latest-append k.native_id xs ys);
  seen = λ n. ground (arith, m.seen n, o.seen n, latest-append n xs ys);
  counted = omega (arith, m.counted, o.counted, length-append xs ys);
}

pub resolved-live : (s : Caches) (o : Option Registry) → (resolved s o).1 ≡ is_some o
resolved-live s none = refl
resolved-live s (some r) = refl

landed-Made :
    (y : Synchronizer) (account : Text) (p : Progress) (item : CatalogueItem) (r : Caches × Bool)
    → ((k : ItemKey) → lookup k r.0.rows ≡ written y account (item ∷ []) k (lookup k p.caches.rows))
    → r.1 ≡ true
    → Made y account p (landed p item r).0 (item ∷ [])
unfolding contains
landed-Made y account p item (s, false) h ok = absurd (ground arith)
landed-Made y account p item (s, true) h ok = record {
  rows = h;
  seen = λ n. elim (Text-discrete item.native_id n) [
    | yes e ↦ ground (arith, e, ap (contains p.seen) e)
    | no other ↦ ground (arith, other)
  ];
  counted = omega arith;
}

landed-live : (p : Progress) (item : CatalogueItem) (r : Caches × Bool) → (landed p item r).1 ≡ r.1
landed-live p item (s, false) = refl
landed-live p item (s, true) = refl

-- A chain that succeeds does so in both steps.
pub chain-true :
    {A : Type 0} (r : A × Bool) (f : A → A × Bool)
    → (chain r f).1 ≡ true
    → (r.1 ≡ true) × (chain r f ≡ f r.0)
chain-true (a, false) f h = absurd (ground arith)
chain-true (a, true) f h = (refl, refl)

pub chain-live :
    {A : Type 0} (r : A × Bool) (f : A → A × Bool)
    → r.1 ≡ true
    → (f r.0).1 ≡ true
    → (chain r f).1 ≡ true
chain-live (a, false) f h k = absurd (ground arith)
chain-live (a, true) f h k = k

pub land_items-Made :
    (y : Synchronizer) (account : Text) (items : List CatalogueItem) (p : Progress)
    → (land_items y account p items).1 ≡ true
    → Made y account p (land_items y account p items).0 items
unfolding land_items
land_items-Made y account [] p ok = record {
  rows = λ k. ground arith;
  seen = λ n. ground arith;
  counted = omega arith;
}
land_items-Made y account (item ∷ items) p ok =
    let r = land y account p.caches item in
    let first = landed p item r in
    let (did, e) = chain-true first (λ q. land_items y account q items) ok in
    let one =
      landed-Made y account p item r (lookup-land y account p.caches item)
        (sym (landed-live p item r) ∙ did) in
    let rest =
      land_items-Made y account items first.0 (ap (λ (z : Progress × Bool). z.1) (sym e) ∙ ok) in
    subst (λ (z : Progress × Bool). Made y account p z.0 (item ∷ items)) (sym e)
      (Made-trans y account p first.0 _ (item ∷ []) items one rest)

unique_items-all_valid :
    (seen : List Text) (items : List CatalogueItem)
    → unique_items seen items ≡ true
    → all_valid items ≡ true
unfolding unique_items all_valid
unique_items-all_valid seen [] h = refl
unique_items-all_valid seen (item ∷ items) h =
    ground (arith, unique_items-all_valid (item.native_id ∷ seen) items)

-- The items of a page that is well formed are valid.
pub validate_page-all_valid :
    (page : Page) → validate_page page ≡ true → all_valid page.items ≡ true
unfolding validate_page
validate_page-all_valid page h = unique_items-all_valid [] page.items h

pub land_items-live :
    (y : Synchronizer) (account : Text) (items : List CatalogueItem) (p : Progress)
    → Resolves y
    → all_valid items ≡ true
    → (land_items y account p items).1 ≡ true
unfolding land_items land all_valid
land_items-live y account [] p v good = refl
land_items-live y account (item ∷ items) p v good =
    let r = land y account p.caches item in
    chain-live (landed p item r) (λ q. land_items y account q items)
      (landed-live p item r ∙ resolved-live _ _ ∙ v p.caches.registry item (ground (arith, good)))
      (land_items-live y account items _ v (ground (arith, good)))

landed-pages :
    (p : Progress) (item : CatalogueItem) (r : Caches × Bool) → (landed p item r).0.pages ≡ p.pages
landed-pages p item (s, false) = refl
landed-pages p item (s, true) = refl

chain-pages :
    (n : ℕ) (r : Progress × Bool) (f : Progress → Progress × Bool)
    → r.0.pages ≡ n
    → ((q : Progress) → q.pages ≡ n → (f q).0.pages ≡ n)
    → (chain r f).0.pages ≡ n
chain-pages n (p, false) f h k = h
chain-pages n (p, true) f h k = k p h

pub land_items-pages :
    (y : Synchronizer) (account : Text) (n : ℕ) (items : List CatalogueItem) (p : Progress)
    → p.pages ≡ n
    → (land_items y account p items).0.pages ≡ n
unfolding land_items
land_items-pages y account n [] p h = h
land_items-pages y account n (item ∷ items) p h =
    chain-pages n (landed p item (land y account p.caches item)) (λ q. land_items y account q items)
      (landed-pages p item _ ∙ h) (land_items-pages y account n items)
