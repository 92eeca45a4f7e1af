-- ===== src/Base/Searches.antt =====
-- Searches in slices against membership, and searches of pairs in either order.
use mathlib.Core.Path.{◌≡◌, refl, sym, ap, ◌∙◌}
use mathlib.Core.Logic.{inl, inr}
use mathlib.Core.Bool.{Bool, true, false, ◌&&◌, ◌||◌}
use mathlib.Core.List.{List, [], ◌∷◌, ◌++◌}
use native.Mathlib.Omega.{arith}
use abcmovies.Base.Words.{Text, ◌==◌, Bool-cases}
use abcmovies.Base.Lists.{any, In, contains}

pub any-In :
    {A : Type 0} (p : A → Bool) (x : A) (xs : List A) → In x xs → p x ≡ true → any p xs ≡ true
any-In p x [] i h = elim i [ ]
any-In p x (y ∷ ys) (inl e) h = ground (arith, ap p e)
any-In p x (y ∷ ys) (inr i) h = ground (arith, any-In p x ys i h)

pub any-found :
    {A : Type 0} (p : A → Bool) (xs : List A) → any p xs ≡ true → (x : A) × In x xs × (p x ≡ true)
any-found p [] h = absurd (ground arith)
any-found p (y ∷ ys) h = elim (Bool-cases (p y)) [
  | inl hit ↦ (y, inl refl, hit)
  | inr miss ↦ let (x, i, hit) = any-found p ys (ground (arith, miss)) in (x, inr i, hit)
]

pub any-cong :
    {A : Type 0} (p q : A → Bool) → ((x : A) → p x ≡ q x) → (xs : List A) → any p xs ≡ any q xs
any-cong p q h [] = refl
any-cong p q h (x ∷ xs) = rw (h x, any-cong p q h xs) refl

any-false : {A : Type 0} (xs : List A) → any (λ x. false) xs ≡ false
any-false [] = refl
any-false (x ∷ xs) = any-false xs

pub any-or :
    {A : Type 0} (p q : A → Bool) (xs : List A) → any (λ x. p x || q x) xs ≡ (any p xs || any q xs)
any-or p q [] = refl
any-or p q (x ∷ xs) = ground (arith, any-or p q xs)

pub any-swap :
    {A B : Type 0} (p : A → B → Bool) (xs : List A) (ys : List B)
    → any (λ x. any (λ y. p x y) ys) xs ≡ any (λ y. any (λ x. p x y) xs) ys
any-swap p [] ys = sym (any-false ys)
any-swap p (x ∷ xs) ys =
    ap (λ b. any (p x) ys || b) (any-swap p xs ys)
    ∙ sym (any-or (p x) (λ y. any (λ z. p z y) xs) ys)

pub any-and :
    {A : Type 0} (b : Bool) (p : A → Bool) (xs : List A) → (b && any p xs) ≡ any (λ x. b && p x) xs
any-and true p xs = refl
any-and false p xs = sym (any-false xs)

pub contains-any : (xs : List Text) (s : Text) → contains xs s ≡ any (λ x. x == s) xs
unfolding contains
contains-any [] s = refl
contains-any (x ∷ xs) s = ground (arith, contains-any xs s)

pub contains-In : (xs : List Text) (s : Text) → contains xs s ≡ true → In s xs
unfolding contains
contains-In [] s h = ground arith
contains-In (x ∷ xs) s h = ground (arith, contains-In xs s)

pub In-contains : (xs : List Text) (s : Text) → In s xs → contains xs s ≡ true
unfolding contains
In-contains [] s h = elim h [ ]
In-contains (x ∷ xs) s h = ground (arith, In-contains xs s)

pub contains-append :
    (xs : List Text) (x s : Text) → contains (xs ++ (x ∷ [])) s ≡ (contains xs s || (x == s))
unfolding contains
contains-append [] x s = ground arith
contains-append (y ∷ xs) x s = ground (arith, contains-append xs x s)
