-- ===== src/Enrichment/Winner.antt =====
-- core/internal/enrichment/engine.go: which candidate is written into the metadata cache.
use abcmovies.Base.{
  ℕ, zero, suc, ◌≡◌, refl, sym, ap, ◌∙◌, true, List, [], ◌∷◌, map, Text, some, ◌⊎◌, inl, inr, In,
  Option-cases, arith,
}
use abcmovies.Identity.Title.{Options}
use abcmovies.Identity.Match.{Item, decide}
use abcmovies.Identity.Select.{screen, adopt, survives, verdicts, is_merge, is_corroborated}
use abcmovies.Identity.Adoption.{holds_at, adopt_iff, screen_iff, holds_at-verdicts}
use abcmovies.MetadataCache.Cache.{Cache}
use abcmovies.Enrichment.Engine.{
  Engine, EntryEvidence, GetMetadataResponse, PooledCandidate, FullItem, Known, unresolvable,
  recorded, unknown, known_ids, evidence_item, pool_of, get_elem?, full_item, full_items, pick,
  search_text, fold_in, choose, screened, enrich,
}
use abcmovies.Enrichment.Candidates.{
  IsOffered, In-pool_of, In-get_elem?, holds_at-map, In-full_items,
}

corroborated-merge :
    (o : Options) (a b : Item)
    → is_corroborated (decide o a b) ≡ true
    → is_merge (decide o a b) ≡ true
unfolding decide
corroborated-merge o a b h = ground arith

holds_at-merge :
    (o : Options) (entry : Item) (cs : List Item) (k : ℕ)
    → holds_at is_corroborated (verdicts o entry cs) k ≡ true
    → holds_at is_merge (verdicts o entry cs) k ≡ true
holds_at-merge o entry [] k h = h
holds_at-merge o entry (c ∷ cs) zero h = corroborated-merge o entry c h
holds_at-merge o entry (c ∷ cs) (suc k) h = holds_at-merge o entry cs k h

-- What is picked is one of the candidates, and merges with the entry.
pub pick-merge :
    (o : Options) (entry : Item) (full : List FullItem) (win : FullItem)
    → pick o entry full ≡ some win
    → In win full × (is_merge (decide o entry win.item) ≡ true)
unfolding pick
pick-merge o entry full win h = elim (Option-cases (adopt o entry (map (λ f. f.item) full))) [
  | inl e ↦ absurd (ground (arith, e))
  | inr (k, e) ↦
      let there : get_elem? full k ≡ some win = ground (arith, e) in
      let merges : holds_at is_merge (verdicts o entry (map (λ f. f.item) full)) k ≡ true =
        elim ((adopt_iff o entry (map (λ f. f.item) full) k).0 e) [
          | inl only ↦ holds_at-merge o entry (map (λ f. f.item) full) k only.0
          | inr other ↦ other.1.0
        ] in
      (
        In-get_elem? full k win there,
        sym (holds_at-map (λ c. is_merge (decide o entry c)) (λ f. f.item) full k win there)
            ∙ sym (holds_at-verdicts is_merge o entry (map (λ f. f.item) full) k)
            ∙ merges,
      )
]

-- A candidate that may be written: a catalogue listed it for the entry, it passed the screen, its
-- details were fetched, and with them it merges with the entry.
pub record IsWinner (y : Engine) (ev : EntryEvidence) (win : FullItem) : Type 0 where
  pub origin : PooledCandidate
  pub response : GetMetadataResponse
  pub offered : IsOffered y.catalogs ev origin
  pub screened : survives y.opts (evidence_item ev) origin.item ≡ true
  pub fetched : origin.cat.get_metadata origin.candidate.ref ≡ some response
  pub same : win ≡ full_item origin response
  pub merges : is_merge (decide y.opts (evidence_item ev) win.item) ≡ true

abbrev pub items : List PooledCandidate → List Item
items pool = map (λ p. p.item) pool

fetched-IsWinner :
    (y : Engine) (ev : EntryEvidence) (win : FullItem)
    → In win (
        full_items
          (pool_of y.catalogs ev)
          (screen y.opts (evidence_item ev) (items (pool_of y.catalogs ev))))
    → is_merge (decide y.opts (evidence_item ev) win.item) ≡ true
    → IsWinner y ev win
fetched-IsWinner y ev win i m =
    let pool = pool_of y.catalogs ev in
    let f = In-full_items pool (screen y.opts (evidence_item ev) (items pool)) win i in
    record {
      origin = f.origin;
      response = f.response;
      offered = In-pool_of y.catalogs ev f.origin (In-get_elem? pool f.index f.origin f.there);
      screened =
          sym (
            holds_at-map (survives y.opts (evidence_item ev)) (λ p. p.item) pool f.index f.origin
              f.there)
          ∙ (screen_iff y.opts (evidence_item ev) (items pool) f.index).0 f.kept;
      fetched = f.fetched;
      same = f.same;
      merges = m;
    }

choose-fold_in :
    (y : Engine) (c next : Cache) (ev : EntryEvidence) (now : ℕ) (full : List FullItem)
    → choose y c ev now full ≡ inr next
    → (next ≡ c)
      ⊎ ((win : FullItem) × In win full
          × (is_merge (decide y.opts (evidence_item ev) win.item) ≡ true)
          × (fold_in y c win now ≡ inr next))
unfolding choose
choose-fold_in y c next ev now [] h = absurd (ground arith)
choose-fold_in y c next ev now (f ∷ fs) h =
    elim (Option-cases (pick y.opts (evidence_item ev) (f ∷ fs))) [
      | inl e ↦ inl (ground (arith, e))
      | inr (win, e) ↦
          let (i, m) = pick-merge y.opts (evidence_item ev) (f ∷ fs) win e in
          inr (win, i, m, ground (arith, e))
    ]

screened-fold_in :
    (y : Engine) (c next : Cache) (ev : EntryEvidence) (now : ℕ) (pool : List PooledCandidate)
    (is : List ℕ)
    → screened y c ev now pool is ≡ inr next
    → (next ≡ c)
      ⊎ ((win : FullItem) × In win (full_items pool is)
          × (is_merge (decide y.opts (evidence_item ev) win.item) ≡ true)
          × (fold_in y c win now ≡ inr next))
unfolding screened
screened-fold_in y c next ev now pool [] h = inl (ground arith)
screened-fold_in y c next ev now pool (i ∷ is) h =
    choose-fold_in y c next ev now (full_items pool (i ∷ is)) h

-- What `Enrich` did where it succeeds and the cache has changed.
pub record Wrote (y : Engine) (c next : Cache) (entry_id : Text) (now : ℕ) : Type 0 where
  pub ev : EntryEvidence
  pub win : FullItem
  pub asked : y.evidence entry_id ≡ inr (some ev)
  pub new : known_ids y.codec c ev.external_ids ≡ unknown
  pub winner : IsWinner y ev win
  pub stored : fold_in y c win now ≡ inr next

search_text-fold_in :
    (y : Engine) (c next : Cache) (ev : EntryEvidence) (now : ℕ)
    → search_text y c ev now ≡ inr next
    → (next ≡ c) ⊎ ((win : FullItem) × IsWinner y ev win × (fold_in y c win now ≡ inr next))
unfolding search_text
search_text-fold_in y c next ev now h =
    let pool = pool_of y.catalogs ev in
    elim (screened-fold_in y c next ev now pool (screen y.opts (evidence_item ev) (items pool)) h) [
      | inl same ↦ inl same
      | inr (win, i, m, e) ↦ inr (win, fetched-IsWinner y ev win i m, e)
    ]

Known-cases : (k : Known) → (k ≡ unresolvable) ⊎ (k ≡ recorded) ⊎ (k ≡ unknown)
Known-cases unresolvable = inl refl
Known-cases recorded = inr (inl refl)
Known-cases unknown = inr (inr refl)

Result-cases : {E A : Type 0} (r : E ⊎ A) → ((e : E) × (r ≡ inl e)) ⊎ ((a : A) × (r ≡ inr a))
Result-cases (inl e) = inl (e, refl)
Result-cases (inr a) = inr (a, refl)

-- Where `Enrich` succeeds, it leaves the cache as it was, or it has written the record of a candidate
-- that a catalogue listed for the entry, that passed the screen, and that merges with the entry by
-- its details, and none of the entry's ids had a record.
pub enrich-Wrote :
    (y : Engine) (c next : Cache) (entry_id : Text) (now : ℕ)
    → enrich y c entry_id now ≡ inr next
    → (next ≡ c) ⊎ Wrote y c next entry_id now
unfolding enrich
enrich-Wrote y c next entry_id now h = elim (Result-cases (y.evidence entry_id)) [
  | inl (fault, e) ↦ absurd (ground (arith, e))
  | inr (o, e) ↦ elim (Option-cases o) [
    | inl gone ↦ inl (ground (arith, e, gone))
    | inr (ev, there) ↦
        let asked : y.evidence entry_id ≡ inr (some ev) = e ∙ ap inr there in
        elim (Known-cases (known_ids y.codec c ev.external_ids)) [
          | inl k ↦ absurd (ground (arith, asked, k))
          | inr (inl k) ↦ inl (ground (arith, asked, k))
          | inr (inr k) ↦ elim (search_text-fold_in y c next ev now (ground (arith, asked, k))) [
            | inl same ↦ inl same
            | inr (win, w, stored) ↦
                inr (record {
                  ev = ev;
                  win = win;
                  asked = asked;
                  new = k;
                  winner = w;
                  stored = stored;
                })
          ]
        ]
  ]
]
