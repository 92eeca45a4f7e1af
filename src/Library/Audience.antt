-- ===== src/Library/Audience.antt =====
-- A user's reaches in core/internal/library/library.go do not change with the audience of an account
-- that the user may not use, neither before nor after.
use abcmovies.Base.{
  ◌≡◌, refl, sym, ap, Bool, true, false, List, [], ◌∷◌, Text, some, lookup, insert, text_key, same,
  Text-discrete, text_lt, select, arith, ◌⊎◌, inl, inr, In, any, Bool-cases,
}
use abcmovies.Library.Reach.{Reach, authorized, insert_reach, snapshot, derivable}
use abcmovies.Library.Service.{carriers}

-- Two reaches of one account that a user does not tell apart.
pub record Alike (user : Text) (r s : Reach) : Type 0 where
  pub same_account : r.account_id ≡ s.account_id
  pub same_answer : authorized r user ≡ authorized s user
  pub same_use : authorized r user ≡ true → r ≡ s

abbrev AllAlike : Text → List Reach → List Reach → Type 0
AllAlike user [] [] = Unit
AllAlike user (r ∷ l) (s ∷ m) = Alike user r s × AllAlike user l m
AllAlike user l m = ⊥

Alike-refl : (user : Text) (r : Reach) → Alike user r r
Alike-refl user r = record { same_account = refl; same_answer = refl; same_use = λ _. refl }

AllAlike-refl : (user : Text) (l : List Reach) → AllAlike user l l
AllAlike-refl user [] = tt
AllAlike-refl user (r ∷ l) = (Alike-refl user r, AllAlike-refl user l)

insert_reach-AllAlike :
    (user : Text) (r s : Reach) (l m : List Reach)
    → Alike user r s
    → AllAlike user l m
    → AllAlike user (insert_reach r l) (insert_reach s m)
unfolding insert_reach
insert_reach-AllAlike user r s [] [] a h = (a, tt)
insert_reach-AllAlike user r s [] (y ∷ m) a h = elim h [ ]
insert_reach-AllAlike user r s (x ∷ l) [] a h = elim h [ ]
insert_reach-AllAlike user r s (x ∷ l) (y ∷ m) a (b, h) =
    let t : text_lt y.account_id s.account_id ≡ text_lt x.account_id r.account_id = cc in
    elim (Bool-cases (text_lt x.account_id r.account_id)) [
      | inl e ↦ rw (t, e) (b, insert_reach-AllAlike user r s l m a h)
      | inr e ↦ rw (t, e) (a, (b, h))
    ]

snapshot-AllAlike :
    (user id : Text) (r s : Reach) (reaches : List (Text × Reach))
    → lookup id reaches ≡ some r
    → Alike user r s
    → AllAlike user (snapshot reaches) (snapshot (insert id s reaches))
unfolding snapshot lookup insert
snapshot-AllAlike user id r s [] h a = absurd (ground arith)
snapshot-AllAlike user id r s ((j, x) ∷ reaches) h a = elim (Text-discrete j id) [
  | yes e ↦
      let i : same j id ≡ true = ground (arith, e) in
      let own : x ≡ r = ground (arith, i) in
      rw (i, own) (insert_reach-AllAlike user r s _ _ a (AllAlike-refl user (snapshot reaches)))
  | no other ↦
      let i : same j id ≡ false = ground (arith, other) in
      rw i (
        insert_reach-AllAlike user x x _ _ (Alike-refl user x)
          (snapshot-AllAlike user id r s reaches (ground (arith, i)) a))
]

select-AllAlike :
    (user : Text) (l m : List Reach)
    → AllAlike user l m
    → select (λ r. authorized r user) l ≡ select (λ r. authorized r user) m
select-AllAlike user [] [] h = refl
select-AllAlike user [] (y ∷ m) h = elim h [ ]
select-AllAlike user (x ∷ l) [] h = elim h [ ]
select-AllAlike user (x ∷ l) (y ∷ m) (b, h) =
    ground (arith, b.same_answer, b.same_use, select-AllAlike user l m h)

pub derivable-AllAlike :
    (user id : Text) (r s : Reach) (reaches : List (Text × Reach))
    → lookup id reaches ≡ some r
    → Alike user r s
    → derivable (insert id s reaches) user ≡ derivable reaches user
unfolding derivable
derivable-AllAlike user id r s reaches h a =
    sym (select-AllAlike user _ _ (snapshot-AllAlike user id r s reaches h a))

In-insert_reach : (r s : Reach) (l : List Reach) → In r (insert_reach s l) → (r ≡ s) ⊎ In r l
unfolding insert_reach
In-insert_reach r s [] i = i
In-insert_reach r s (x ∷ l) i = elim (Bool-cases (text_lt x.account_id s.account_id)) [
  | inl e ↦ ground (arith, e, In-insert_reach r s l)
  | inr e ↦ ground (arith, e)
]

In-select :
    {A : Type 0} (p : A → Bool) (x : A) (l : List A) → In x (select p l) → In x l × (p x ≡ true)
In-select p x [] i = elim i [ ]
In-select p x (y ∷ l) i = ground (arith, In-select p x l, ap p)

-- A user's reach that carries an account is one of the account's carriers.
In-carriers :
    (user provider account_id : Text) (r : Reach) (reaches : List (Text × Reach))
    → In r (snapshot reaches)
    → authorized r user ≡ true
    → r.provider ≡ provider
    → r.account_id ≡ account_id
    → any (λ c. authorized c user) (carriers provider account_id reaches) ≡ true
unfolding snapshot carriers
In-carriers user provider account_id r [] i a p q = elim i [ ]
In-carriers user provider account_id r ((j, x) ∷ reaches) i a p q =
    elim (In-insert_reach r x (snapshot reaches) i) [
      | inl e ↦ ground (arith, ap (λ (c : Reach). authorized c user) e)
      | inr i' ↦ ground (arith, In-carriers user provider account_id r reaches i' a p q)
    ]

pub derivable-carriers :
    (user provider account_id : Text) (r : Reach) (reaches : List (Text × Reach))
    → In r (derivable reaches user)
    → r.provider ≡ provider
    → r.account_id ≡ account_id
    → any (λ c. authorized c user) (carriers provider account_id reaches) ≡ true
unfolding derivable
derivable-carriers user provider account_id r reaches i p q =
    let (j, a) = In-select (λ s. authorized s user) r (snapshot reaches) i in
    In-carriers user provider account_id r reaches j a p q
