-- ===== src/SourceCache/Ingest.antt =====
-- What taking in a search's items leaves, in core/internal/sourcecache/sourcecache.go.
use abcmovies.Base.{
  ℕ, ◌≡◌, refl, sym, ap, ◌∙◌, Bool, true, false, List, [], ◌∷◌, length, Text, Option, none, some,
  lookup, arith,
}
use abcmovies.ItemRegistry.Records.{CatalogueItem}
use abcmovies.SourceCache.Table.{ItemKey, item_key}
use abcmovies.SourceCache.Sync.{Caches, Synchronizer, land}
use abcmovies.SourceCache.Refresh.{absent, all_valid, announced, ingest_loop, counted, ingest_items}
use abcmovies.SourceCache.Landing.{written, lookup-land}
use abcmovies.SourceCache.Items.{Resolves, resolved-live, chain-true, chain-live}
use abcmovies.SourceCache.Outcome.{notify-rows}

announced-rows :
    (y : Synchronizer) (account : Text) (new : Bool) (item : CatalogueItem) (r : Caches × Bool)
    → (announced y account new item r).0.rows ≡ r.0.rows
announced-rows y account new item (s, false) = refl
announced-rows y account false item (s, true) = refl
announced-rows y account true item (s, true) = notify-rows y account s item.native_id true

announced-live :
    (y : Synchronizer) (account : Text) (new : Bool) (item : CatalogueItem) (r : Caches × Bool)
    → (announced y account new item r).1 ≡ r.1
announced-live y account new item (s, false) = refl
announced-live y account new item (s, true) = refl

ingest_loop-live :
    (y : Synchronizer) (account : Text) (items : List CatalogueItem) (s : Caches)
    → Resolves y
    → all_valid items ≡ true
    → (ingest_loop y account s items).1 ≡ true
unfolding ingest_loop land all_valid
ingest_loop-live y account [] s v good = refl
ingest_loop-live y account (item ∷ items) s v good =
    chain-live (announced y account (absent y account s item) item (land y account s item)) _
      (announced-live y account _ item (land y account s item)
        ∙ resolved-live _ _
        ∙ v s.registry item (ground (arith, good)))
      (ingest_loop-live y account items _ v (ground (arith, good)))

ingest_loop-rows :
    (y : Synchronizer) (account : Text) (items : List CatalogueItem) (s : Caches) (k : ItemKey)
    → (ingest_loop y account s items).1 ≡ true
    → lookup k (ingest_loop y account s items).0.rows ≡ written y account items k (lookup k s.rows)
unfolding ingest_loop
ingest_loop-rows y account [] s k ok = ground arith
ingest_loop-rows y account (item ∷ items) s k ok =
    let first = announced y account (absent y account s item) item (land y account s item) in
    let (did, e) = chain-true first (λ t. ingest_loop y account t items) ok in
    let rest =
      ingest_loop-rows y account items first.0 k (ap (λ (z : Caches × Bool). z.1) (sym e) ∙ ok) in
    let one =
      ap (λ rows. lookup k rows)
        (announced-rows y account (absent y account s item) item (land y account s item)) in
    ap (λ (z : Caches × Bool). lookup k z.0.rows) e
    ∙ rest
    ∙ ap (written y account items k) (one ∙ lookup-land y account s item k)
    ∙ ground arith

counted-true :
    (items : List CatalogueItem) (r : Caches × Bool)
    → r.1 ≡ true
    → counted items r ≡ (r.0, some (length items))
counted-true items (s, true) h = refl
counted-true items (s, false) h = absurd (ground arith)

-- Where the resolver resolves every valid item: if all items are valid, IngestItems succeeds with their
-- number, each of them is cached in its last version, and every other row is as it was; if one of
-- them is not, it fails and changes nothing.
pub ingest_items_lem :
    (y : Synchronizer) (s : Caches) (account : Text) (items : List CatalogueItem)
    → Resolves y
    → let (t, result) = ingest_items y s account items in
      (all_valid items ≡ true
        → (result ≡ some (length items))
          × ((k : ItemKey) → lookup k t.rows ≡ written y account items k (lookup k s.rows)))
      × (all_valid items ≡ false → (result ≡ none) × (t ≡ s))
unfolding ingest_items
ingest_items_lem y s account items v = (
  λ good.
      let live = ingest_loop-live y account items s v good in
      let e = counted-true items (ingest_loop y account s items) live in
      rw (ingest_items, good)
        (
          ap (λ (z : Caches × Option ℕ). z.1) e,
          λ k.
              ap (λ (z : Caches × Option ℕ). lookup k z.0.rows) e
              ∙ ingest_loop-rows y account items s k live,
        ),
  λ bad. rw (ingest_items, bad) (refl, refl),
)
