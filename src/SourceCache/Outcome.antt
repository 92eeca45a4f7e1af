-- ===== src/SourceCache/Outcome.antt =====
-- What a catalogue sync of core/internal/sourcecache/sourcecache.go leaves, on success and on failure.
use abcmovies.Base.{
  ℕ, suc, ◌≡◌, refl, subst, sym, ap, ◌∙◌, Bool, true, false, not, ◌&&◌, List, [], ◌∷◌, length, Text,
  ◌==◌, Text-discrete, text_key, if◌then◌else◌, contains, Option, none, some, lookup, insert,
  delete, lookup-insert, lookup-delete, arith, inl, inr, Bool-cases,
}
use abcmovies.ItemRegistry.Records.{CatalogueItem}
use abcmovies.SourceCache.Table.{ItemKey, item_key, key_of, belongs}
use abcmovies.SourceCache.Paths.{
  slash_free, is_plain, item_path, account_prefix, has_prefix-item_path,
}
use abcmovies.Enrichment.Merge.{has_prefix}
use abcmovies.SourceCache.Sync.{
  Account, account_row, Manifest, Stats, Caches, Synchronizer, Progress, sync_pages, native_ids,
  notify_availability, depart, drop_departed, announce, reconcile, completed, finished, begun,
  max_pages, sync_account,
}
use abcmovies.SourceCache.Landing.{latest, is_some, same_key, same_row, Kept, sync_pages-Kept}
use abcmovies.SourceCache.Items.{Resolves, Made}
use abcmovies.SourceCache.Snapshot.{reported, sync_pages-Made, sync_pages-live}

contains-native_ids :
    (p a n : Text) (rows : List (ItemKey × CatalogueItem))
    → contains (native_ids p a rows) n ≡ is_some (lookup (key_of p a n) rows)
unfolding native_ids contains lookup
contains-native_ids p a n [] = refl
contains-native_ids p a n ((k, item) ∷ rows) =
    ground (arith, contains-native_ids p a n rows, same_row p a n k)

-- A row of the account is among its ids.
contains-belongs :
    (p a : Text) (k : ItemKey) (rows : List (ItemKey × CatalogueItem))
    → belongs p a k ≡ true
    → contains (native_ids p a rows) k.native_id ≡ is_some (lookup k rows)
contains-belongs p a k rows h =
    let e : p ≡ k.provider = ground arith in
    let f : a ≡ k.account_id = ground arith in
    let g : key_of p a k.native_id ≡ k = cc in
    contains-native_ids p a k.native_id rows ∙ ap (λ j. is_some (lookup j rows)) g

pub notify-rows :
    (y : Synchronizer) (account : Text) (s : Caches) (n : Text) (b : Bool)
    → (notify_availability y account s n b).rows ≡ s.rows
unfolding notify_availability
notify-rows y account s n b = ground arith

lookup-depart :
    (y : Synchronizer) (account : Text) (s : Caches) (n : Text) (k : ItemKey)
    → lookup k (depart y account s n).rows
      ≡ (if belongs y.provider account k && (n == k.native_id) then none else lookup k s.rows)
unfolding depart
lookup-depart y account s n k =
    let t : Caches = record s { rows = delete (key_of y.provider account n) s.rows } in
    ap (λ rows. lookup k rows) (notify-rows y account t n false)
    ∙ lookup-delete (key_of y.provider account n) k s.rows
    ∙ ap (λ (b : Bool). if b then none else lookup k s.rows) (same_key y.provider account n k)

lookup-drop_departed :
    (y : Synchronizer) (account : Text) (seen ns : List Text) (s : Caches) (removed : ℕ)
    (k : ItemKey)
    → lookup k (drop_departed y account seen ns (s, removed)).0.rows ≡ (
        if belongs y.provider account k
          && (contains ns k.native_id && not (contains seen k.native_id))
        then none
        else lookup k s.rows)
unfolding drop_departed contains
lookup-drop_departed y account seen [] s removed k = ground arith
lookup-drop_departed y account seen (n ∷ ns) s removed k = elim (Bool-cases (contains seen n)) [
  | inl e ↦
      rw (drop_departed, e)
        (lookup-drop_departed y account seen ns s removed k ∙ elim (Text-discrete n k.native_id) [
          | yes f ↦ ground (arith, e, f, ap (contains seen) f)
          | no other ↦ ground (arith, other)
        ])
  | inr e ↦
      rw (drop_departed, e)
        (lookup-drop_departed y account seen ns (depart y account s n) (suc removed) k
          ∙ elim (Text-discrete n k.native_id) [
            | yes f ↦ ground (arith, e, f, ap (contains seen) f, lookup-depart y account s n k)
            | no other ↦ ground (arith, other, lookup-depart y account s n k)
          ])
]

announce-rows :
    (y : Synchronizer) (account : Text) (prev ns : List Text) (s : Caches)
    → (announce y account prev ns s).rows ≡ s.rows
unfolding announce
announce-rows y account prev [] s = refl
announce-rows y account prev (n ∷ ns) s = elim (Bool-cases (contains prev n)) [
  | inl e ↦ rw (announce, e) (announce-rows y account prev ns s)
  | inr e ↦
      rw (announce, e)
        (announce-rows y account prev ns (notify_availability y account s n true)
          ∙ notify-rows y account s n true)
]

-- Under the account's prefix the store has the reported items, each in its last version, and no other;
-- what stands under other prefixes is as it was. This is said of the keys that are plain.
abbrev pub IsSnapshot : Synchronizer → Text → List CatalogueItem → Caches → Caches → Type 0
IsSnapshot y account items s t =
    (k : ItemKey)
    → is_plain k ≡ true
    → lookup k t.rows ≡ (
        if has_prefix (item_path k) (account_prefix y.provider account)
        then latest k.native_id items
        else lookup k s.rows)

reconciled :
    (y : Synchronizer) (account : Text) (items : List CatalogueItem) (s : Caches) (q : Progress)
    → slash_free y.provider ≡ true
    → slash_free account ≡ true
    → Made y account (begun s) q items
    → IsSnapshot y account items s
        (reconcile y account (native_ids y.provider account s.rows) q.seen q.caches).0
unfolding reconcile contains
reconciled y account items s q whole_provider whole_account made k plain =
    let prev = native_ids y.provider account s.rows in
    let dropped = drop_departed y account q.seen prev (q.caches, 0) in
    ap (λ rows. lookup k rows) (announce-rows y account prev q.seen dropped.0)
    ∙ lookup-drop_departed y account q.seen prev q.caches 0 k
    ∙ ground (
      arith,
      has_prefix-item_path y.provider account k whole_provider whole_account plain,
      made.rows k,
      made.seen k.native_id,
      contains-belongs y.provider account k s.rows,
    )

finished-true :
    (y : Synchronizer) (account : Text) (now : ℕ) (prev : List Text) (r : Progress × Bool)
    → r.1 ≡ true
    → finished y account now prev r
      ≡ completed y account now r.0 (reconcile y account prev r.0.seen r.0.caches)
finished-true y account now prev (q, true) h = refl
finished-true y account now prev (q, false) h = absurd (ground arith)

finished-some :
    (y : Synchronizer) (account : Text) (now : ℕ) (prev : List Text) (r : Progress × Bool)
    (stats : Stats)
    → (finished y account now prev r).1 ≡ some stats
    → r.1 ≡ true
finished-some y account now prev (q, true) stats h = refl
finished-some y account now prev (q, false) stats h = absurd (ground arith)

finished-none :
    (y : Synchronizer) (account : Text) (now : ℕ) (prev : List Text) (r : Progress × Bool)
    → (finished y account now prev r).1 ≡ none
    → (finished y account now prev r).0 ≡ r.0.caches
finished-none y account now prev (q, true) h = absurd (ground arith)
finished-none y account now prev (q, false) h = refl

found_after :
    (a : Account) (m : Manifest) (manifests : List (Account × Manifest))
    → lookup a (insert a m manifests) ≡ some m
found_after a m manifests = ground (arith, lookup-insert a a m manifests)

begun_count :
    (y : Synchronizer) (account : Text) (s : Caches) (q : Progress) (items : List CatalogueItem)
    → Made y account (begun s) q items
    → q.items ≡ length items
begun_count y account s q items made = omega (arith, made.counted)

-- What the completion marker of an account says.
abbrev pub marker : Synchronizer → Text → Caches → Option Manifest
marker y account s = lookup (record { provider = y.provider; account_id = account }) s.manifests

-- With a resolver that resolves every valid item, or none, SyncAccount succeeds if all pages are well
-- formed and end within the limit. Whatever the resolver does, when SyncAccount succeeds, the pages
-- were so, and of the plain keys of the store, those under the account's prefix have the reported
-- items, each in its last version, and the others what they had; the completion marker holds the time
-- and the number of items. The names of the provider and the account have no slash.
pub sync_account-IsSnapshot :
    (y : Synchronizer) (now : ℕ) (s : Caches) (account : Text)
    → slash_free y.provider ≡ true
    → slash_free account ≡ true
    → let (t, result) = sync_account y now s account in
      (Resolves y
        → (items : List CatalogueItem) → reported y account max_pages 0 [] ≡ some items
        → (stats : Stats) × (result ≡ some stats))
      × ((stats : Stats)
          → result ≡ some stats
          → (items : List CatalogueItem) × (reported y account max_pages 0 [] ≡ some items)
            × IsSnapshot y account items s t
            × (marker y account t
                ≡ some (record { last_complete_sync = now; items = length items })))
unfolding sync_account
sync_account-IsSnapshot y now s account whole_provider whole_account =
    let prev = native_ids y.provider account s.rows in
    let r = sync_pages y account max_pages (begun s) [] in
    (
      λ v items told.
          let e =
            finished-true y account now prev r
              (sync_pages-live y account max_pages (begun s) [] items v told) in
          (_, ap (λ (z : Caches × Option Stats). z.1) e),
      λ stats h.
          let ok = finished-some y account now prev r stats h in
          let (items, told, made) = sync_pages-Made y account max_pages (begun s) [] ok in
          let e = finished-true y account now prev r ok in
          (
            items,
            told,
            λ k plain.
                ap (λ (z : Caches × Option Stats). lookup k z.0.rows) e
                ∙ reconciled y account items s r.0 whole_provider whole_account made k plain,
            ap (λ (z : Caches × Option Stats). marker y account z.0) e
                ∙ found_after (record { provider = y.provider; account_id = account }) _ _
                ∙ ap (λ n. some (record { last_complete_sync = now; items = n }))
                    (begun_count y account s r.0 items made),
          ),
    )

-- A sync that fails has taken no row away, announced nothing, and left the completion markers as they
-- were.
pub sync_account-Kept :
    (y : Synchronizer) (now : ℕ) (s : Caches) (account : Text)
    → (sync_account y now s account).1 ≡ none
    → Kept s (sync_account y now s account).0
unfolding sync_account
sync_account-Kept y now s account h =
    let prev = native_ids y.provider account s.rows in
    let r = sync_pages y account max_pages (begun s) [] in
    subst (Kept s) (sym (finished-none y account now prev r h))
      (sync_pages-Kept y account max_pages (begun s) [])
