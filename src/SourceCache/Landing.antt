-- ===== src/SourceCache/Landing.antt =====
-- What the loops of core/internal/sourcecache/sourcecache.go leave in the rows.
use abcmovies.Base.{
  ℕ, zero, suc, ◌≡◌, refl, subst, sym, ap, ◌∙◌, Bool, true, false, ◌&&◌, List, [], ◌∷◌, Text, ◌==◌,
  text_key, if◌then◌else◌, blank, Option, none, some, lookup, insert, lookup-insert, arith,
  Option-cases, same, inl, inr, Bool-cases,
}
use abcmovies.ItemRegistry.Records.{CatalogueItem, Registry}
use abcmovies.SourceCache.Table.{ItemKey, item_key, key_of, belongs}
use abcmovies.SourceCache.Sync.{
  Caches, Synchronizer, Progress, land, resolved, run_resolver, landed, chain, sync_pages,
  validate_page, turned, land_items,
}

-- The last item of a list with a native id.
abbrev pub latest : Text → List CatalogueItem → Option CatalogueItem
latest n [] = none
latest n (item ∷ items) = elim (latest n items) [
  | some later ↦ some later
  | none ↦ if item.native_id == n then some item else none
]

abbrev pub or_else : {A : Type 0} → Option A → Option A → Option A
or_else (some a) o = some a
or_else none o = o

abbrev pub is_some : {A : Type 0} → Option A → Bool
is_some none = false
is_some (some a) = true

-- Rows after a list of items of an account was written.
abbrev pub written :
    Synchronizer → Text → List CatalogueItem → ItemKey → Option CatalogueItem → Option CatalogueItem
written y account items key old =
    if belongs y.provider account key then or_else (latest key.native_id items) old else old

pub same_key :
    (p a n : Text) (k : ItemKey) → same (key_of p a n) k ≡ (belongs p a k && (n == k.native_id))
same_key p a n k =
    let joined : p ≡ k.provider → a ≡ k.account_id → n ≡ k.native_id → key_of p a n ≡ k =
      λ e f g. cc in
    ground (
      arith,
      joined,
      λ (e : key_of p a n ≡ k). ap ItemKey.native_id e,
      λ (e : key_of p a n ≡ k). ap ItemKey.account_id e,
      λ (e : key_of p a n ≡ k). ap ItemKey.provider e,
    )

pub same_row :
    (p a n : Text) (k : ItemKey) → same k (key_of p a n) ≡ (belongs p a k && (k.native_id == n))
same_row p a n k =
    let joined : k.provider ≡ p → k.account_id ≡ a → k.native_id ≡ n → k ≡ key_of p a n =
      λ e f g. cc in
    ground (
      arith,
      joined,
      λ (e : k ≡ key_of p a n). ap ItemKey.native_id e,
      λ (e : k ≡ key_of p a n). ap ItemKey.account_id e,
      λ (e : k ≡ key_of p a n). ap ItemKey.provider e,
    )

-- What no item's landing changes.
abbrev pub Kept : Caches → Caches → Type 0
Kept s t =
    (t.manifests ≡ s.manifests)
    × (t.events ≡ s.events)
    × ((k : ItemKey) → is_some (lookup k s.rows) ≡ true → is_some (lookup k t.rows) ≡ true)

resolved-rows : (s : Caches) (o : Option Registry) → (resolved s o).0.rows ≡ s.rows
resolved-rows s none = refl
resolved-rows s (some r) = refl

resolved-rest :
    (s : Caches) (o : Option Registry)
    → ((resolved s o).0.manifests ≡ s.manifests) × ((resolved s o).0.events ≡ s.events)
resolved-rest s none = (refl, refl)
resolved-rest s (some r) = (refl, refl)

land-rows :
    (y : Synchronizer) (account : Text) (s : Caches) (item : CatalogueItem)
    → (land y account s item).0.rows ≡ insert (key_of y.provider account item.native_id) item s.rows
unfolding land
land-rows y account s item = resolved-rows _ (run_resolver y.resolver s.registry item)

pub lookup-land :
    (y : Synchronizer) (account : Text) (s : Caches) (item : CatalogueItem) (k : ItemKey)
    → lookup k (land y account s item).0.rows ≡ written y account (item ∷ []) k (lookup k s.rows)
lookup-land y account s item k = ground (
  arith,
  land-rows y account s item,
  lookup-insert (key_of y.provider account item.native_id) k item s.rows,
  same_key y.provider account item.native_id k,
)

land-Kept :
    (y : Synchronizer) (account : Text) (s : Caches) (item : CatalogueItem)
    → Kept s (land y account s item).0
unfolding land
land-Kept y account s item =
    let t : Caches = record s {
      rows = insert (key_of y.provider account item.native_id) item s.rows;
    } in
    let (m, e) = resolved-rest t (run_resolver y.resolver s.registry item) in
    (m, e, λ k h. ground (arith, lookup-land y account s item k))

Kept-trans : (s t u : Caches) → Kept s t → Kept t u → Kept s u
Kept-trans s t u (m, e, k) (m', e', k') = (m' ∙ m, e' ∙ e, λ j h. k' j (k j h))

landed-caches :
    (p : Progress) (item : CatalogueItem) (r : Caches × Bool) → (landed p item r).0.caches ≡ r.0
landed-caches p item (s, false) = refl
landed-caches p item (s, true) = refl

chain-Kept :
    (s : Caches) (r : Progress × Bool) (f : Progress → Progress × Bool)
    → Kept s r.0.caches
    → ((p : Progress) → Kept p.caches (f p).0.caches)
    → Kept s (chain r f).0.caches
chain-Kept s (p, false) f h k = h
chain-Kept s (p, true) f h k = Kept-trans s p.caches (f p).0.caches h (k p)

pub land_items-Kept :
    (y : Synchronizer) (account : Text) (items : List CatalogueItem) (p : Progress)
    → Kept p.caches (land_items y account p items).0.caches
unfolding land_items
land_items-Kept y account [] p = (refl, refl, λ k h. h)
land_items-Kept y account (item ∷ items) p =
    chain-Kept p.caches (landed p item (land y account p.caches item))
      (λ q. land_items y account q items)
      (subst (Kept p.caches) (sym (landed-caches p item _)) (land-Kept y account p.caches item))
      (land_items-Kept y account items)

pub sync_pages-Kept :
    (y : Synchronizer) (account : Text) (left : ℕ) (p : Progress) (token : Text)
    → Kept p.caches (sync_pages y account left p token).0.caches
unfolding sync_pages
sync_pages-Kept y account zero p token = (refl, refl, λ k h. h)
sync_pages-Kept y account (suc left) p token =
    elim (Option-cases (y.client account p.pages token)) [
      | inl e ↦ rw (sync_pages, e) (refl, refl, λ k h. h)
      | inr (page, e) ↦ elim (Bool-cases (validate_page page)) [
        | inr bad ↦ rw (sync_pages, e, bad) (refl, refl, λ k h. h)
        | inl good ↦
            rw (sync_pages, e, good)
              (chain-Kept p.caches (land_items y account p page.items) _
                (land_items-Kept y account page.items p)
                (λ q. elim (Bool-cases (blank page.next_page_token)) [
                  | inl last ↦ rw last (refl, refl, λ k h. h)
                  | inr more ↦
                      rw more (sync_pages-Kept y account left (turned q) page.next_page_token)
                ]))
      ]
    ]
