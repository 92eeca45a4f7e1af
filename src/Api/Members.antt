-- ===== src/Api/Members.antt =====
-- `sameMembers` of core/internal/apiserver/accounts.go.
use abcmovies.Base.{
  ℕ, zero, suc, ◌+◌, ◌≤◌, ◌<◌, ◌≡◌, refl, sym, ap, true, List, [], ◌∷◌, Text, text_key, ◌==◌,
  Text-discrete, length, if◌then◌else◌, lookup, insert, lookup-insert, times, arith, ◌⊎◌, inl, inr,
  IsSorted, IsSorted-unique,
}
use abcmovies.Api.Handlers.{count_of, tally, draws_down, same_members}

count_of-insert :
    (m k : Text) (n : ℕ) (counts : List (Text × ℕ))
    → count_of k (insert m n counts) ≡ (if m == k then n else count_of k counts)
count_of-insert m k n counts = ground (arith, lookup-insert m k n counts)

count_of-tally :
    (k : Text) (ms : List Text) (counts : List (Text × ℕ))
    → count_of k (tally ms counts) ≡ times k ms + count_of k counts
unfolding tally
count_of-tally k [] counts = omega arith
count_of-tally k (m ∷ ms) counts =
    let rest = count_of-tally k ms (insert m (suc (count_of m counts)) counts) in
    elim (Text-discrete m k) [
      | yes e ↦ ground (
        arith,
        e,
        rest,
        count_of-insert m k (suc (count_of m counts)) counts,
        ap (λ t. count_of t counts) e,
      )
      | no other ↦ ground (arith, other, rest, count_of-insert m k (suc (count_of m counts)) counts)
    ]

ℕ-cases : (n : ℕ) → (n ≡ 0) ⊎ ((m : ℕ) × (n ≡ suc m))
ℕ-cases zero = inl refl
ℕ-cases (suc m) = inr (m, refl)

draws_down-bound :
    (k : Text) (ms : List Text) (counts : List (Text × ℕ))
    → draws_down ms counts ≡ true
    → times k ms ≤ count_of k counts
unfolding draws_down
draws_down-bound k [] counts h = omega arith
draws_down-bound k (m ∷ ms) counts h = elim (ℕ-cases (count_of m counts)) [
  | inl empty ↦ absurd (ground (arith, empty))
  | inr (n, more) ↦
      let rest = draws_down-bound k ms (insert m n counts) (ground (arith, more)) in
      elim (Text-discrete m k) [
        | yes e ↦
            ground
              (arith, e, rest, more, count_of-insert m k n counts, ap (λ t. count_of t counts) e)
        | no other ↦ ground (arith, other, rest, count_of-insert m k n counts)
      ]
]

no_count : (k : Text) → count_of k [] ≡ 0
unfolding lookup
no_count k = refl

-- One occurrence of a name is taken out.
unfoldable drop_one : Text → List Text → List Text
drop_one k [] = []
drop_one k (m ∷ ms) = let rest = drop_one k ms in if m == k then ms else m ∷ rest

length-drop_one :
    (k : Text) (ms : List Text) → 0 < times k ms → length ms ≡ suc (length (drop_one k ms))
unfolding drop_one
length-drop_one k [] h = absurd (omega arith)
length-drop_one k (m ∷ ms) h = ground (arith, length-drop_one k ms)

times-drop_one :
    (j k : Text) (ms : List Text)
    → 0 < times k ms
    → times j ms ≡ times j (drop_one k ms) + (if k == j then 1 else 0)
unfolding drop_one
times-drop_one j k [] h = absurd (omega arith)
times-drop_one j k (m ∷ ms) h = ground (arith, times-drop_one j k ms)

-- A list as long as another that holds nothing more often holds everything as often.
times-fits :
    (b a : List Text)
    → length a ≡ length b
    → ((k : Text) → times k b ≤ times k a)
    → (k : Text) → times k b ≡ times k a
times-fits [] [] e h k = refl
times-fits [] (x ∷ a) e h k = absurd (omega arith)
times-fits (y ∷ b) a e h k =
    let there : 0 < times y a = ground (arith, h y) in
    let rest =
      times-fits b (drop_one y a) (omega (arith, length-drop_one y a there))
        (λ j. ground (arith, h j, times-drop_one j y a there)) in
    ground (arith, rest k, times-drop_one k y a there)

-- Sorted rosters that are told the same are the same.
pub same_members-sorted :
    (a b : List Text) → IsSorted a → IsSorted b → same_members a b ≡ true → a ≡ b
unfolding same_members lookup
same_members-sorted a b sa sb h =
    let e : length a ≡ length b = ground arith in
    let d : draws_down b (tally a []) ≡ true = ground arith in
    IsSorted-unique a b sa sb (λ k. sym (
      times-fits b a e
        (λ j. omega (arith, draws_down-bound j b (tally a []) d, count_of-tally j a [], no_count j))
        k))
