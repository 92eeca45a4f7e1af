-- ===== src/Identity/Adoption.antt =====
-- core/internal/identity/select.go: which candidate is adopted, and that the screen lets it through.
use abcmovies.Base.{
  inl, inr, ◌⊎◌, ◌↔◌, ◌<◌, ◌+◌, zero, suc, ℕ, ◌≡◌, refl, sym, ap, ◌∙◌, Bool, true, false, not, List,
  [], ◌∷◌, if◌then◌else◌, none, some, any, count, arith, In, Bool-cases, eqb,
}
use abcmovies.Identity.Title.{Options}
use abcmovies.Identity.Match.{Verdict, Item, decide}
use abcmovies.Identity.Select.{
  absent, tie, one, scan, adopt, verdicts, is_corroborated, is_merge, survives, screen, screen_from,
  contradicts,
}

-- The element at an index passes a test.
abbrev pub holds_at {ℓ} : {A : Type ℓ} → (A → Bool) → List A → ℕ → Bool
holds_at p [] k = false
holds_at p (v ∷ vs) zero = p v
holds_at p (v ∷ vs) (suc k) = holds_at p vs k

-- One element passes the test, and it is the one at this index.
abbrev pub Only {ℓ} : {A : Type ℓ} → (A → Bool) → List A → ℕ → Type 0
Only p vs k = (holds_at p vs k ≡ true) × (count p vs ≡ 1)

count-holds_at :
    (p : Verdict → Bool) (vs : List Verdict) (k : ℕ) → holds_at p vs k ≡ true → 0 < count p vs
count-holds_at p [] k h = absurd (ground arith)
count-holds_at p (v ∷ vs) zero h = ground arith
count-holds_at p (v ∷ vs) (suc k) h = ground (arith, count-holds_at p vs k h)

scan-some :
    (p : Verdict → Bool) (j i : ℕ) (vs : List Verdict)
    → scan p (some j) i vs ≡ (if any p vs then tie else one j)
unfolding scan
scan-some p j i [] = refl
scan-some p j i (v ∷ vs) = elim (Bool-cases (p v)) [
  | inl hit ↦ rw hit refl
  | inr miss ↦ rw miss (scan-some p j (suc i) vs)
]

any-count : (p : Verdict → Bool) (vs : List Verdict) → any p vs ≡ not (eqb (count p vs) 0)
any-count p [] = refl
any-count p (v ∷ vs) = elim (Bool-cases (p v)) [
  | inl hit ↦ rw hit (ground arith)
  | inr miss ↦ rw miss (ground (arith, any-count p vs))
]

-- After a first hit, the loop ends with it if no other follows.
scan-hit :
    (p : Verdict → Bool) (j i k : ℕ) (vs : List Verdict)
    → (scan p (some j) i vs ≡ one k) ↔ ((k ≡ j) × (count p vs ≡ 0))
scan-hit p j i k vs = rw (scan-some p j i vs, any-count p vs) (ground arith)

scan-head :
    (p : Verdict → Bool) (i : ℕ) (v : Verdict) (vs : List Verdict) (b : Bool)
    → p v ≡ b
    → scan p none i (v ∷ vs) ≡ scan p (if b then some i else none) (suc i) vs
unfolding scan
scan-head p i v vs b e = ap (λ c. scan p (if c then some i else none) (suc i) vs) e

scan-Only :
    (p : Verdict → Bool) (i k : ℕ) (vs : List Verdict)
    → Only p vs k
    → scan p none i vs ≡ one (i + k)
unfolding scan
scan-Only p i k [] h = absurd (ground arith)
scan-Only p i zero (v ∷ vs) h =
    scan-head p i v vs true h.0 ∙ (scan-hit p i (suc i) (i + 0) vs).1 (ground arith)
scan-Only p i (suc k) (v ∷ vs) h = elim (Bool-cases (p v)) [
  | inl hit ↦ absurd (ground (arith, count-holds_at p vs k, hit))
  | inr miss ↦
      scan-head p i v vs false miss
      ∙ scan-Only p (suc i) k vs (h.0, ground (arith, miss))
      ∙ ap one (omega arith)
]

scan-one :
    (p : Verdict → Bool) (i k : ℕ) (vs : List Verdict)
    → scan p none i vs ≡ one k
    → (d : ℕ) × (k ≡ i + d) × Only p vs d
unfolding scan
scan-one p i k [] h = absurd (ground arith)
scan-one p i k (v ∷ vs) h = elim (Bool-cases (p v)) [
  | inl hit ↦
      let (e, alone) = (scan-hit p i (suc i) k vs).0 (sym (scan-head p i v vs true hit) ∙ h) in
      (zero, omega arith, (hit, rw hit (omega arith)))
  | inr miss ↦
      let (d, e, (there, alone)) =
        scan-one p (suc i) k vs (sym (scan-head p i v vs false miss) ∙ h) in
      (suc d, omega arith, (there, rw miss (omega arith)))
]

scan-absent :
    (p : Verdict → Bool) (i : ℕ) (vs : List Verdict)
    → (scan p none i vs ≡ absent) ↔ (count p vs ≡ 0)
unfolding scan
scan-absent p i [] = (λ h. refl, λ h. refl)
scan-absent p i (v ∷ vs) = elim (Bool-cases (p v)) [
  | inl hit ↦ rw (scan-head p i v vs true hit, scan-some p i (suc i) vs, hit) (ground arith)
  | inr miss ↦ rw (scan-head p i v vs false miss, miss) (ground (arith, scan-absent p (suc i) vs))
]

-- Adoption never guesses: the candidate that is adopted is the only corroborated one, or, where
-- none is corroborated, the only one that merges, and each such candidate is adopted.
pub adopt_iff :
    (o : Options) (entry : Item) (cs : List Item) (k : ℕ)
    → (adopt o entry cs ≡ some k) ↔ (
        Only is_corroborated (verdicts o entry cs) k
        ⊎ ((count is_corroborated (verdicts o entry cs) ≡ 0)
            × Only is_merge (verdicts o entry cs) k))
unfolding adopt
adopt_iff o entry cs k =
    let vs = verdicts o entry cs in
    ground (
      arith,
      scan-Only is_corroborated 0 k vs,
      scan-Only is_merge 0 k vs,
      scan-one is_corroborated 0 k vs,
      scan-one is_merge 0 k vs,
      scan-absent is_corroborated 0 vs,
    )

In-screen_from :
    (o : Options) (entry : Item) (i k : ℕ) (cs : List Item)
    → In k (screen_from o entry i cs)
    → (d : ℕ) × (k ≡ i + d) × (holds_at (survives o entry) cs d ≡ true)
unfolding screen_from
In-screen_from o entry i k [] h = elim h [ ]
In-screen_from o entry i k (c ∷ cs) h = elim (Bool-cases (survives o entry c)) [
  | inl stays ↦ elim (by_head stays h) [
    | inl here ↦ (zero, omega arith, stays)
    | inr there ↦
        let (d, e, hit) = In-screen_from o entry (suc i) k cs there in (suc d, omega arith, hit)
  ]
  | inr dropped ↦
      let (d, e, hit) = In-screen_from o entry (suc i) k cs (ground (arith, dropped)) in
      (suc d, omega arith, hit)
]
  where
    by_head :
        survives o entry c ≡ true
        → In k (
            if survives o entry c
            then i ∷ screen_from o entry (suc i) cs
            else screen_from o entry (suc i) cs)
        → (k ≡ i) ⊎ In k (screen_from o entry (suc i) cs)
    by_head stays h = ground (arith, stays)

holds_at-screen_from :
    (o : Options) (entry : Item) (i d : ℕ) (cs : List Item)
    → holds_at (survives o entry) cs d ≡ true
    → In (i + d) (screen_from o entry i cs)
unfolding screen_from
holds_at-screen_from o entry i d [] h = absurd (ground arith)
holds_at-screen_from o entry i zero (c ∷ cs) h = ground arith
holds_at-screen_from o entry i (suc d) (c ∷ cs) h =
    ground (arith, holds_at-screen_from o entry (suc i) d cs h)

pub holds_at-verdicts :
    (p : Verdict → Bool) (o : Options) (entry : Item) (cs : List Item) (k : ℕ)
    → holds_at p (verdicts o entry cs) k ≡ holds_at (λ c. p (decide o entry c)) cs k
holds_at-verdicts p o entry [] k = refl
holds_at-verdicts p o entry (c ∷ cs) zero = refl
holds_at-verdicts p o entry (c ∷ cs) (suc k) = holds_at-verdicts p o entry cs k

-- `Screen` keeps exactly the candidates that no gate drops.
pub screen_iff :
    (o : Options) (entry : Item) (cs : List Item) (k : ℕ)
    → In k (screen o entry cs) ↔ (holds_at (survives o entry) cs k ≡ true)
unfolding screen
screen_iff o entry cs k = (
  λ h. let (d, e, hit) = In-screen_from o entry 0 k cs h in ground (arith, e, hit),
  λ h. ground (arith, holds_at-screen_from o entry 0 k cs h),
)

heuristic-survives :
    (o : Options) (entry c : Item)
    → is_merge (decide o entry c) ≡ true
    → is_corroborated (decide o entry c) ≡ false
    → contradicts entry.external_ids c.external_ids ≡ false
    → survives o entry c ≡ true
unfolding decide survives
heuristic-survives o entry c m n d = ground arith

at-survives :
    (o : Options) (entry : Item) (cs : List Item) (k : ℕ)
    → holds_at (λ c. is_merge (decide o entry c)) cs k ≡ true
    → holds_at (λ c. is_corroborated (decide o entry c)) cs k ≡ false
    → holds_at (λ c. contradicts entry.external_ids c.external_ids) cs k ≡ false
    → holds_at (survives o entry) cs k ≡ true
at-survives o entry [] k m n d = m
at-survives o entry (c ∷ cs) zero m n d = heuristic-survives o entry c m n d
at-survives o entry (c ∷ cs) (suc k) m n d = at-survives o entry cs k m n d

-- The screen before the detail fetch loses no winner: a candidate that is adopted without a shared
-- external id, and whose external ids do not contradict the entry's, is among those it keeps.
pub adopt-screen :
    (o : Options) (entry : Item) (cs : List Item) (k : ℕ)
    → adopt o entry cs ≡ some k
    → holds_at is_corroborated (verdicts o entry cs) k ≡ false
    → holds_at (λ c. contradicts entry.external_ids c.external_ids) cs k ≡ false
    → In k (screen o entry cs)
adopt-screen o entry cs k h n d =
    let m : holds_at is_merge (verdicts o entry cs) k ≡ true =
      ground (arith, adopt_iff o entry cs k) in
    (screen_iff o entry cs k).1 (
      at-survives o entry cs k (sym (holds_at-verdicts is_merge o entry cs k) ∙ m)
        (sym (holds_at-verdicts is_corroborated o entry cs k) ∙ n) d)
