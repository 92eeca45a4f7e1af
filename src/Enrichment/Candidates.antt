-- ===== src/Enrichment/Candidates.antt =====
-- core/internal/enrichment/engine.go: the candidates of a lookup, and the survivors with details.
use abcmovies.Base.{
  ℕ, zero, suc, ◌≡◌, refl, sym, ap, subst, Bool, List, [], ◌∷◌, ◌++◌, map, none, some, ◌⊎◌, inl,
  inr, In, Option-cases, arith,
}
use abcmovies.Identity.Adoption.{holds_at}
use abcmovies.Enrichment.Engine.{
  EntryEvidence, TitleCandidate, GetMetadataResponse, Catalogue, PooledCandidate, FullItem, pooled,
  pool_of, get_elem?, full_item, full_items, request_of,
}

-- A candidate that a catalogue of the list answered the lookup with.
pub record IsOffered (cats : List Catalogue) (ev : EntryEvidence) (p : PooledCandidate)
    : Type 0 where
  pub candidates : List TitleCandidate
  pub candidate : TitleCandidate
  pub from_slot : In p.cat cats
  pub answered : p.cat.lookup_title (request_of ev) ≡ some candidates
  pub listed : In candidate candidates
  pub same : p ≡ pooled p.cat candidate

In-map-pooled :
    (cat : Catalogue) (cs : List TitleCandidate) (rest : List PooledCandidate) (p : PooledCandidate)
    → In p (map (λ c. pooled cat c) cs ++ rest)
    → In p rest ⊎ ((c : TitleCandidate) × In c cs × (p ≡ pooled cat c))
In-map-pooled cat [] rest p i = inl i
In-map-pooled cat (c ∷ cs) rest p (inl e) = inr (c, inl refl, e)
In-map-pooled cat (c ∷ cs) rest p (inr i) = elim (In-map-pooled cat cs rest p i) [
  | inl j ↦ inl j
  | inr (d, j, e) ↦ inr (d, inr j, e)
]

pool_of-none :
    (cat : Catalogue) (cats : List Catalogue) (ev : EntryEvidence)
    → cat.lookup_title (request_of ev) ≡ none
    → pool_of (cat ∷ cats) ev ≡ pool_of cats ev
unfolding pool_of
pool_of-none cat cats ev e = ground (arith, e)

pool_of-some :
    (cat : Catalogue) (cats : List Catalogue) (ev : EntryEvidence) (cs : List TitleCandidate)
    → cat.lookup_title (request_of ev) ≡ some cs
    → pool_of (cat ∷ cats) ev ≡ map (λ c. pooled cat c) cs ++ pool_of cats ev
unfolding pool_of
pool_of-some cat cats ev cs e = ground (arith, e)

IsOffered-later :
    (cat : Catalogue) (cats : List Catalogue) (ev : EntryEvidence) (p : PooledCandidate)
    → IsOffered cats ev p
    → IsOffered (cat ∷ cats) ev p
IsOffered-later cat cats ev p o = record {
  candidates = o.candidates;
  candidate = o.candidate;
  from_slot = inr o.from_slot;
  answered = o.answered;
  listed = o.listed;
  same = o.same;
}

IsOffered-pooled :
    (cat : Catalogue) (cats : List Catalogue) (ev : EntryEvidence) (cs : List TitleCandidate)
    (c : TitleCandidate)
    → cat.lookup_title (request_of ev) ≡ some cs
    → In c cs
    → IsOffered (cat ∷ cats) ev (pooled cat c)
IsOffered-pooled cat cats ev cs c e i = record {
  candidates = cs;
  candidate = c;
  from_slot = inl refl;
  answered = e;
  listed = i;
  same = refl;
}

pub In-pool_of :
    (cats : List Catalogue) (ev : EntryEvidence) (p : PooledCandidate)
    → In p (pool_of cats ev)
    → IsOffered cats ev p
unfolding pool_of
In-pool_of [] ev p i = elim i [ ]
In-pool_of (cat ∷ cats) ev p i = elim (Option-cases (cat.lookup_title (request_of ev))) [
  | inl e ↦
      IsOffered-later cat cats ev p
        (In-pool_of cats ev p (subst (In p) (pool_of-none cat cats ev e) i))
  | inr (cs, e) ↦
      elim (In-map-pooled cat cs (pool_of cats ev) p
        (subst (In p) (pool_of-some cat cats ev cs e) i)) [
          | inl j ↦ IsOffered-later cat cats ev p (In-pool_of cats ev p j)
          | inr (c, j, same) ↦
              subst (IsOffered (cat ∷ cats) ev) (sym same) (IsOffered-pooled cat cats ev cs c e j)
        ]
]

pub In-get_elem? : {A : Type 0} (xs : List A) (k : ℕ) (x : A) → get_elem? xs k ≡ some x → In x xs
unfolding get_elem?
In-get_elem? [] k x h = absurd (ground arith)
In-get_elem? (y ∷ ys) zero x h = inl (ground arith)
In-get_elem? (y ∷ ys) (suc k) x h = inr (In-get_elem? ys k x h)

pub holds_at-map :
    {A B : Type 0} (p : B → Bool) (f : A → B) (xs : List A) (k : ℕ) (x : A)
    → get_elem? xs k ≡ some x
    → holds_at p (map f xs) k ≡ p (f x)
unfolding get_elem?
holds_at-map p f [] k x h = absurd (ground arith)
holds_at-map p f (y ∷ ys) zero x h = ap (λ z. p (f z)) (some-injective y x h)
  where
    some-injective : {C : Type 0} (a b : C) → some a ≡ some b → a ≡ b
    some-injective a b e = ground arith
holds_at-map p f (y ∷ ys) (suc k) x h = holds_at-map p f ys k x h

-- A candidate with details: a survivor of the screen whose details were fetched.
pub record IsFetched (pool : List PooledCandidate) (is : List ℕ) (win : FullItem) : Type 0 where
  pub index : ℕ
  pub origin : PooledCandidate
  pub response : GetMetadataResponse
  pub kept : In index is
  pub there : get_elem? pool index ≡ some origin
  pub fetched : origin.cat.get_metadata origin.candidate.ref ≡ some response
  pub same : win ≡ full_item origin response

IsFetched-later :
    (pool : List PooledCandidate) (i : ℕ) (is : List ℕ) (win : FullItem)
    → IsFetched pool is win
    → IsFetched pool (i ∷ is) win
IsFetched-later pool i is win f = record {
  index = f.index;
  origin = f.origin;
  response = f.response;
  kept = inr f.kept;
  there = f.there;
  fetched = f.fetched;
  same = f.same;
}

IsFetched-here :
    (pool : List PooledCandidate) (i : ℕ) (is : List ℕ) (p : PooledCandidate)
    (r : GetMetadataResponse)
    → get_elem? pool i ≡ some p
    → p.cat.get_metadata p.candidate.ref ≡ some r
    → IsFetched pool (i ∷ is) (full_item p r)
IsFetched-here pool i is p r e f = record {
  index = i;
  origin = p;
  response = r;
  kept = inl refl;
  there = e;
  fetched = f;
  same = refl;
}

full_items-out :
    (pool : List PooledCandidate) (i : ℕ) (is : List ℕ)
    → get_elem? pool i ≡ none
    → full_items pool (i ∷ is) ≡ full_items pool is
unfolding full_items
full_items-out pool i is e = ground (arith, e)

full_items-failed :
    (pool : List PooledCandidate) (i : ℕ) (is : List ℕ) (p : PooledCandidate)
    → get_elem? pool i ≡ some p
    → p.cat.get_metadata p.candidate.ref ≡ none
    → full_items pool (i ∷ is) ≡ full_items pool is
unfolding full_items
full_items-failed pool i is p e f = ground (arith, e, f)

full_items-fetched :
    (pool : List PooledCandidate) (i : ℕ) (is : List ℕ) (p : PooledCandidate)
    (r : GetMetadataResponse)
    → get_elem? pool i ≡ some p
    → p.cat.get_metadata p.candidate.ref ≡ some r
    → full_items pool (i ∷ is) ≡ full_item p r ∷ full_items pool is
unfolding full_items
full_items-fetched pool i is p r e f = ground (arith, e, f)

pub In-full_items :
    (pool : List PooledCandidate) (is : List ℕ) (win : FullItem)
    → In win (full_items pool is)
    → IsFetched pool is win
unfolding full_items
In-full_items pool [] win h = elim h [ ]
In-full_items pool (i ∷ is) win h = elim (Option-cases (get_elem? pool i)) [
  | inl e ↦
      IsFetched-later pool i is win
        (In-full_items pool is win (subst (In win) (full_items-out pool i is e) h))
  | inr (p, e) ↦ elim (Option-cases (p.cat.get_metadata p.candidate.ref)) [
    | inl f ↦
        IsFetched-later pool i is win
          (In-full_items pool is win (subst (In win) (full_items-failed pool i is p e f) h))
    | inr (r, f) ↦
        here_or_later p r e f (λ (j : In win (full_items pool is)). In-full_items pool is win j)
          (subst (In win) (full_items-fetched pool i is p r e f) h)
  ]
]
  where
    here_or_later :
        (p : PooledCandidate) (r : GetMetadataResponse)
        → get_elem? pool i ≡ some p
        → p.cat.get_metadata p.candidate.ref ≡ some r
        → (In win (full_items pool is) → IsFetched pool is win)
        → In win (full_item p r ∷ full_items pool is)
        → IsFetched pool (i ∷ is) win
    here_or_later p r e f later (inl s) =
        subst (IsFetched pool (i ∷ is)) (sym s) (IsFetched-here pool i is p r e f)
    here_or_later p r e f later (inr j) = IsFetched-later pool i is win (later j)
