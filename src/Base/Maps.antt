-- ===== src/Base/Maps.antt =====
-- Go's maps as association lists: at most the first pair with a key counts. The order of the list
-- stands for the order of an iteration, which Go leaves open.
use Prim.Native.Nat.{ℕ, ◌+◌, ◌≤◌}
use mathlib.Core.Path.{◌≡◌, refl}
use mathlib.Core.Bool.{Bool, true, false}
use mathlib.Core.Option.{Option, none, some}
use mathlib.Core.List.{List, [], ◌∷◌}
use native.Mathlib.Omega.{arith}
use abcmovies.Base.Words.{Text, Text-discrete, if◌then◌else◌}

pub record Key (K : Type 0) : Type 0 where
  pub dec : Discrete K

instance abbrev pub text_key : Key Text
text_key = record { dec = Text-discrete }

module _ {K : Type 0} ⦃k : Key K⦄ where
  -- The test `==` on keys.
  abbrev pub same : K → K → Bool
  same a b = elim (k.dec a b) [ yes _ ↦ true | no _ ↦ false ]

module _ {κ} {K : Type 0} {V : Type κ} ⦃k : Key K⦄ where
  -- `v, ok := m[q]`
  unfoldable pub lookup : K → List (K × V) → Option V
  lookup q [] = none
  lookup q ((j, v) ∷ m) = if same j q then some v else lookup q m

  -- `m[q] = v`
  unfoldable pub insert : K → V → List (K × V) → List (K × V)
  insert q v [] = (q, v) ∷ []
  insert q v ((j, w) ∷ m) = if same j q then (q, v) ∷ m else (j, w) ∷ insert q v m

  -- `delete(m, q)`
  unfoldable pub delete : K → List (K × V) → List (K × V)
  delete q [] = []
  delete q ((j, w) ∷ m) = if same j q then delete q m else (j, w) ∷ delete q m

  pub lookup-insert :
      (q j : K) (v : V) (m : List (K × V))
      → lookup j (insert q v m) ≡ (if same q j then some v else lookup j m)
  unfolding lookup insert
  lookup-insert q j v [] = refl
  lookup-insert q j v ((i, w) ∷ m) = ground (arith, lookup-insert q j v m)

  pub lookup-delete :
      (q j : K) (m : List (K × V)) → lookup j (delete q m) ≡ (if same q j then none else lookup j m)
  unfolding lookup delete
  lookup-delete q j [] = ground arith
  lookup-delete q j ((i, w) ∷ m) = ground (arith, lookup-delete q j m)

module _ {κ} {K : Type 0} {V : Type κ} where
  -- A loop over a map of pointers that writes through each of them.
  unfoldable pub map_values : (K → V → V) → List (K × V) → List (K × V)
  map_values f [] = []
  map_values f ((j, v) ∷ m) = (j, f j v) ∷ map_values f m

  -- The number of a map's values that pass a test.
  unfoldable pub count_values : (V → Bool) → List (K × V) → ℕ
  count_values p [] = 0
  count_values p ((j, v) ∷ m) = (if p v then 1 else 0) + count_values p m

  -- The pairs that pass a test.
  unfoldable pub select_pairs : (K → V → Bool) → List (K × V) → List (K × V)
  select_pairs p [] = []
  select_pairs p ((j, v) ∷ m) = if p j v then (j, v) ∷ select_pairs p m else select_pairs p m

module _ {κ} {K : Type 0} {V : Type κ} ⦃k : Key K⦄ where
  pub lookup-map_values :
      (f : K → V → V) (q : K) (m : List (K × V))
      → lookup q (map_values f m) ≡ elim (lookup q m) [ none ↦ none | some v ↦ some (f q v) ]
  unfolding lookup map_values
  lookup-map_values f q [] = refl
  lookup-map_values f q ((j, v) ∷ m) = ground (arith, lookup-map_values f q m)

  pub count_values-insert :
      (p : V → Bool) (q : K) (v : V) (m : List (K × V))
      → count_values p (insert q v m) ≤ count_values p m + (if p v then 1 else 0)
  unfolding count_values insert
  count_values-insert p q v [] = ground arith
  count_values-insert p q v ((j, w) ∷ m) = ground (arith, count_values-insert p q v m)

  -- A value that is written over one that passed the test raises no count.
  pub count_values-insert_over :
      (p : V → Bool) (q : K) (v w : V) (m : List (K × V))
      → lookup q m ≡ some w
      → (p v ≡ true → p w ≡ true)
      → count_values p (insert q v m) ≤ count_values p m
  unfolding count_values insert lookup
  count_values-insert_over p q v w [] e h = cc
  count_values-insert_over p q v w ((j, u) ∷ m) e h =
      ground (arith, count_values-insert_over p q v w m)

  -- A value under a new key counts by itself, and one that passes as the old one did changes no count.
  pub count_values-insert_new :
      (p : V → Bool) (q : K) (v : V) (m : List (K × V))
      → lookup q m ≡ none
      → count_values p (insert q v m) ≡ (if p v then 1 else 0) + count_values p m
  unfolding count_values insert lookup
  count_values-insert_new p q v [] e = refl
  count_values-insert_new p q v ((j, w) ∷ m) e = ground (arith, count_values-insert_new p q v m)

  pub count_values-insert_same :
      (p : V → Bool) (q : K) (v w : V) (m : List (K × V))
      → lookup q m ≡ some w
      → p v ≡ p w
      → count_values p (insert q v m) ≡ count_values p m
  unfolding count_values insert lookup
  count_values-insert_same p q v w [] e h = cc
  count_values-insert_same p q v w ((j, u) ∷ m) e h =
      ground (arith, count_values-insert_same p q v w m)

  pub count_values-delete :
      (p : V → Bool) (q : K) (m : List (K × V)) → count_values p (delete q m) ≤ count_values p m
  unfolding count_values delete
  count_values-delete p q [] = ground arith
  count_values-delete p q ((j, w) ∷ m) = ground (arith, count_values-delete p q m)

module _ {κ} {K : Type 0} {V : Type κ} where
  pub count_values-map_values :
      (p : V → Bool) (f : K → V → V)
      → ((j : K) (v : V) → p (f j v) ≡ true → p v ≡ true)
      → (m : List (K × V)) → count_values p (map_values f m) ≤ count_values p m
  unfolding count_values map_values
  count_values-map_values p f h [] = ground arith
  count_values-map_values p f h ((j, v) ∷ m) =
      ground (arith, h j v, count_values-map_values p f h m)

module _ {κ} {K : Type 0} {V : Type κ} ⦃k : Key K⦄ where
  -- No key stands twice, as in a map of Go.
  abbrev pub DistinctKeys : List (K × V) → Type κ
  DistinctKeys [] = Unit
  DistinctKeys ((j, v) ∷ m) = (lookup j m ≡ none) × DistinctKeys m

  pub insert-DistinctKeys :
      (q : K) (v : V) (m : List (K × V)) → DistinctKeys m → DistinctKeys (insert q v m)
  unfolding insert lookup
  insert-DistinctKeys q v [] d = (refl, tt)
  insert-DistinctKeys q v ((j, w) ∷ m) d =
      ground (arith, lookup-insert q j v m, insert-DistinctKeys q v m d.1)

  pub delete-DistinctKeys : (q : K) (m : List (K × V)) → DistinctKeys m → DistinctKeys (delete q m)
  unfolding delete
  delete-DistinctKeys q [] d = tt
  delete-DistinctKeys q ((j, w) ∷ m) d =
      ground (arith, lookup-delete q j m, delete-DistinctKeys q m d.1)

  pub map_values-DistinctKeys :
      (f : K → V → V) (m : List (K × V)) → DistinctKeys m → DistinctKeys (map_values f m)
  unfolding map_values
  map_values-DistinctKeys f [] d = tt
  map_values-DistinctKeys f ((j, w) ∷ m) d =
      ground (arith, lookup-map_values f j m, map_values-DistinctKeys f m d.1)
