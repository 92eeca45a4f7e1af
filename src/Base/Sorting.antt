-- ===== src/Base/Sorting.antt =====
-- The order of strings is total, and a sorted slice is determined by how often it holds each string.
use Prim.Native.Nat.{ℕ, ◌<◌}
use mathlib.Core.Path.{◌≡◌, refl, sym}
use mathlib.Core.Bool.{Bool, true, false, ◌||◌}
use mathlib.Core.List.{List, [], ◌∷◌}
use native.Mathlib.Omega.{arith}
use abcmovies.Base.Words.{Text, ◌==◌, Text-discrete}
use abcmovies.Base.Lists.{count, any}
use abcmovies.Base.Order.{text_lt, insert_text, sort_strings}

-- How often a slice holds a string.
abbrev pub times : Text → List Text → ℕ
times k l = count (λ s. s == k) l

pub times-insert_text : (k t : Text) (l : List Text) → times k (insert_text t l) ≡ times k (t ∷ l)
unfolding insert_text
times-insert_text k t [] = refl
times-insert_text k t (s ∷ l) = ground (arith, times-insert_text k t l)

pub times-sort_strings : (k : Text) (l : List Text) → times k (sort_strings l) ≡ times k l
unfolding sort_strings
times-sort_strings k [] = refl
times-sort_strings k (t ∷ l) =
    omega (arith, times-insert_text k t (sort_strings l), times-sort_strings k l)

text_lt_asym : (s t : Text) → text_lt s t ≡ true → text_lt t s ≡ false
unfolding text_lt
text_lt_asym [] [] h = refl
text_lt_asym [] (y ∷ ys) h = refl
text_lt_asym (x ∷ xs) [] h = absurd (ground arith)
text_lt_asym (x ∷ xs) (y ∷ ys) h = ground (arith, text_lt_asym xs ys)

text_lt_total : (s t : Text) → text_lt s t ≡ false → text_lt t s ≡ false → s ≡ t
unfolding text_lt
text_lt_total [] [] h k = refl
text_lt_total [] (y ∷ ys) h k = absurd (ground arith)
text_lt_total (x ∷ xs) [] h k = absurd (ground arith)
text_lt_total (x ∷ xs) (y ∷ ys) h k = ground (arith, text_lt_total xs ys)

-- What lies between two strings is above the one or below the other.
text_lt_between : (s t u : Text) → text_lt s u ≡ false → text_lt u t ≡ false → text_lt s t ≡ false
unfolding text_lt
text_lt_between [] t [] h k = k
text_lt_between [] t (z ∷ zs) h k = absurd (ground arith)
text_lt_between (x ∷ xs) [] u h k = refl
text_lt_between (x ∷ xs) (y ∷ ys) [] h k = absurd (ground arith)
text_lt_between (x ∷ xs) (y ∷ ys) (z ∷ zs) h k = ground (arith, text_lt_between xs ys zs)

abbrev pub IsSorted : List Text → Type 0
IsSorted [] = Unit
IsSorted (s ∷ []) = Unit
IsSorted (s ∷ t ∷ l) = (text_lt t s ≡ false) × IsSorted (t ∷ l)

insert_text-IsSorted : (t : Text) (l : List Text) → IsSorted l → IsSorted (insert_text t l)
unfolding insert_text
insert_text-IsSorted t [] h = tt
insert_text-IsSorted t (s ∷ []) h = ground (arith, text_lt_asym s t)
insert_text-IsSorted t (s ∷ r ∷ l) h =
    ground (arith, text_lt_asym s t, insert_text-IsSorted t (r ∷ l))

pub sort_strings-IsSorted : (l : List Text) → IsSorted (sort_strings l)
unfolding sort_strings
sort_strings-IsSorted [] = tt
sort_strings-IsSorted (t ∷ l) = insert_text-IsSorted t (sort_strings l) (sort_strings-IsSorted l)

-- No string of a sorted slice is below its head.
text_lt-head : (x y : Text) (l : List Text) → IsSorted (y ∷ l) → 0 < times x l → text_lt x y ≡ false
text_lt-head x y [] h o = absurd (omega arith)
text_lt-head x y (z ∷ l) h o = elim (Text-discrete z x) [
  | yes e ↦ rw (sym e) h.0
  | no other ↦ text_lt_between x y z (text_lt-head x z l h.1 (ground (arith, other))) h.0
]

IsSorted-tail : (s : Text) (l : List Text) → IsSorted (s ∷ l) → IsSorted l
IsSorted-tail s [] h = tt
IsSorted-tail s (t ∷ l) h = h.1

heads_equal :
    (x y : Text) (l m : List Text)
    → IsSorted (x ∷ l)
    → IsSorted (y ∷ m)
    → 0 < times x (y ∷ m)
    → 0 < times y (x ∷ l)
    → x ≡ y
heads_equal x y l m h k o p = elim (Text-discrete y x) [
  | yes e ↦ sym e
  | no other ↦
      text_lt_total x y (text_lt-head x y m k (ground (arith, other)))
        (text_lt-head y x l h (ground (arith, other)))
]

pub IsSorted-unique :
    (l m : List Text) → IsSorted l → IsSorted m → ((k : Text) → times k l ≡ times k m) → l ≡ m
IsSorted-unique [] [] h k e = refl
IsSorted-unique [] (y ∷ m) h k e = absurd (ground (arith, e y))
IsSorted-unique (x ∷ l) [] h k e = absurd (ground (arith, e x))
IsSorted-unique (x ∷ l) (y ∷ m) h k e =
    let same = heads_equal x y l m h k (ground (arith, e x)) (ground (arith, e y)) in
    let rest : l ≡ m =
      IsSorted-unique l m (IsSorted-tail x l h) (IsSorted-tail y m k)
        (λ j. ground (arith, same, e j)) in
    ground (arith, same, rest)

any-insert_text :
    (p : Text → Bool) (t : Text) (l : List Text) → any p (insert_text t l) ≡ (p t || any p l)
unfolding insert_text
any-insert_text p t [] = refl
any-insert_text p t (s ∷ l) = ground (arith, any-insert_text p t l)

pub any-sort_strings : (p : Text → Bool) (l : List Text) → any p (sort_strings l) ≡ any p l
unfolding sort_strings
any-sort_strings p [] = refl
any-sort_strings p (t ∷ l) =
    ground (arith, any-insert_text p t (sort_strings l), any-sort_strings p l)
