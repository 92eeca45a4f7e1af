-- ===== src/SourceCache/Snapshot.antt =====
-- The pages of a catalogue sync in core/internal/sourcecache/sourcecache.go against the items that the
-- provider reports.
use abcmovies.Base.{
  ℕ, zero, suc, ◌≡◌, refl, subst, sym, ap, ◌∙◌, Bool, true, false, List, ◌++◌, Text, text_key,
  blank, Option, none, some, arith, Option-cases, inl, inr, Bool-cases,
}
use abcmovies.ItemRegistry.Records.{CatalogueItem}
use abcmovies.SourceCache.Table.{item_key}
use abcmovies.SourceCache.Sync.{
  Synchronizer, Progress, Page, land_items, chain, sync_pages, validate_page, turned,
}
use abcmovies.SourceCache.Items.{
  Resolves, Made, Made-trans, chain-true, chain-live, land_items-Made, land_items-live,
  land_items-pages, validate_page-all_valid,
}

-- All that the provider reports, page after page, within a number of pages; `none` if a page fails,
-- is malformed, or is one too many.
unfoldable pub reported : Synchronizer → Text → ℕ → ℕ → Text → Option (List CatalogueItem)
reported y account zero calls token = none
reported y account (suc left) calls token = elim (y.client account calls token) [
  | none ↦ none
  | some page ↦ elim (validate_page page) [
    | false ↦ none
    | true ↦ elim (blank page.next_page_token) [
      | true ↦ some page.items
      | false ↦ elim (reported y account left (suc calls) page.next_page_token) [
        | none ↦ none
        | some rest ↦ some (page.items ++ rest)
      ]
    ]
  ]
]

reported-more :
    (y : Synchronizer) (account : Text) (left calls : ℕ) (token : Text) (page : Page)
    (rest : List CatalogueItem)
    → y.client account calls token ≡ some page
    → validate_page page ≡ true
    → blank page.next_page_token ≡ false
    → reported y account left (suc calls) page.next_page_token ≡ some rest
    → reported y account (suc left) calls token ≡ some (page.items ++ rest)
unfolding reported
reported-more y account left calls token page rest e good more told =
    rw (reported, e, good, more, told) refl

-- A loop over the pages that succeeds has landed all that is reported.
pub sync_pages-Made :
    (y : Synchronizer) (account : Text) (left : ℕ) (p : Progress) (token : Text)
    → (sync_pages y account left p token).1 ≡ true
    → (items : List CatalogueItem) × (reported y account left p.pages token ≡ some items)
      × Made y account p (sync_pages y account left p token).0 items
unfolding sync_pages reported
sync_pages-Made y account zero p token ok = absurd (ground arith)
sync_pages-Made y account (suc left) p token ok =
    elim (Option-cases (y.client account p.pages token)) [
      | inl e ↦ absurd (ground (arith, e))
      | inr (page, e) ↦ elim (Bool-cases (validate_page page)) [
        | inr bad ↦ absurd (ground (arith, e, bad))
        | inl good ↦
            let first = land_items y account p page.items in
            let next : Progress → Progress × Bool = λ q. elim (blank page.next_page_token) [
              | true ↦ (turned q, true)
              | false ↦ sync_pages y account left (turned q) page.next_page_token
            ] in
            let s : sync_pages y account (suc left) p token ≡ chain first next =
              rw (sync_pages, e, good) refl in
            let (did, c) = chain-true first next (ap (λ (z : Progress × Bool). z.1) (sym s) ∙ ok) in
            let one = land_items-Made y account page.items p did in
            elim (Bool-cases (blank page.next_page_token)) [
              | inl last ↦
                  let whole : sync_pages y account (suc left) p token ≡ (turned first.0, true) =
                    s ∙ c ∙ rw last refl in
                  (
                    page.items,
                    rw (reported, e, good, last) refl,
                    subst (λ (z : Progress × Bool). Made y account p z.0 page.items) (sym whole)
                        (record { rows = one.rows; seen = one.seen; counted = one.counted }),
                  )
              | inr more ↦
                  let q = turned first.0 in
                  let whole : sync_pages y account (suc left) p token
                      ≡ sync_pages y account left q page.next_page_token =
                    s ∙ c ∙ rw more refl in
                  let (rest, told, made) =
                    sync_pages-Made y account left q page.next_page_token
                      (ap (λ (z : Progress × Bool). z.1) (sym whole) ∙ ok) in
                  let calls = land_items-pages y account p.pages page.items p refl in
                  let told' : reported y account left (suc p.pages) page.next_page_token
                      ≡ some rest =
                    ap (λ n. reported y account left (suc n) page.next_page_token) (sym calls)
                    ∙ told in
                  (
                    page.items ++ rest,
                    reported-more y account left p.pages token page rest e good more told',
                    subst (λ (z : Progress × Bool). Made y account p z.0 (page.items ++ rest))
                        (sym whole)
                        (Made-trans y account p q _ page.items rest
                          (record { rows = one.rows; seen = one.seen; counted = one.counted })
                          made),
                  )
            ]
      ]
    ]

-- A provider whose pages end in time, with a resolver of valid items, is synced.
pub sync_pages-live :
    (y : Synchronizer) (account : Text) (left : ℕ) (p : Progress) (token : Text)
    (items : List CatalogueItem)
    → Resolves y
    → reported y account left p.pages token ≡ some items
    → (sync_pages y account left p token).1 ≡ true
unfolding sync_pages reported
sync_pages-live y account zero p token items v h = absurd (ground arith)
sync_pages-live y account (suc left) p token items v h =
    elim (Option-cases (y.client account p.pages token)) [
      | inl e ↦ absurd (ground (arith, e))
      | inr (page, e) ↦ elim (Bool-cases (validate_page page)) [
        | inr bad ↦ absurd (ground (arith, e, bad))
        | inl good ↦
            let first =
              land_items-live y account page.items p v (validate_page-all_valid page good) in
            let calls = land_items-pages y account p.pages page.items p refl in
            elim (Bool-cases (blank page.next_page_token)) [
              | inl last ↦ rw (sync_pages, e, good) (chain-live _ _ first (rw last refl))
              | inr more ↦
                  elim (Option-cases (reported y account left (suc p.pages) page.next_page_token)) [
                    | inl failed ↦ absurd (ground (arith, e, good, more, failed))
                    | inr (rest, told) ↦
                        rw (sync_pages, e, good)
                          (chain-live _ _ first (
                            rw more (
                              sync_pages-live y account left _ page.next_page_token rest v (
                                ap (λ n. reported y account left (suc n) page.next_page_token) calls
                                ∙ told))))
                  ]
            ]
      ]
    ]
