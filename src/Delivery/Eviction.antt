-- ===== src/Delivery/Eviction.antt =====
-- `ApplyAccountCap` of core/internal/delivery/delivery.go brings an account down to its limit.
use abcmovies.Base.{
  ℕ, zero, suc, ◌+◌, ◌-◌, ◌≤◌, ◌≡◌, refl, true, false, ◌&&◌, List, [], ◌∷◌, map, Text, text,
  if◌then◌else◌, some, text_key, arith, contains, count_values, map_values, select_pairs, length,
  take, All,
}
use abcmovies.Base.Int.{pos}
use abcmovies.Policy.Limits.{Set}
use abcmovies.Delivery.Session.{Session, Engine, is_active}
use abcmovies.Delivery.Start.{Wiring, passed, active_on_account, resolve_constraints}
use abcmovies.Delivery.Ending.{
  ended, end_where, end_indexed, insert_sorted, sort_by_start, excess, cut, enforce_cap,
  limit_under, apply_account_cap,
}

abbrev Pair : Type 0
Pair = Text × Session

-- The number of pairs whose id is not in a list.
spared : List Text → List Pair → ℕ
spared ids [] = 0
spared ids ((id, s) ∷ l) = (if contains ids id then 0 else 1) + spared ids l

spared-insert_sorted :
    (ids : List Text) (x : Pair) (l : List Pair)
    → spared ids (insert_sorted x l) ≡ spared ids (x ∷ l)
unfolding spared insert_sorted
spared-insert_sorted ids (i, s) [] = refl
spared-insert_sorted ids (i, s) ((j, u) ∷ l) = ground (arith, spared-insert_sorted ids (i, s) l)

spared-sort : (ids : List Text) (l : List Pair) → spared ids (sort_by_start l) ≡ spared ids l
unfolding spared sort_by_start
spared-sort ids [] = refl
spared-sort ids ((i, s) ∷ l) =
    ground (arith, spared-insert_sorted ids (i, s) (sort_by_start l), spared-sort ids l)

length-insert_sorted : (x : Pair) (l : List Pair) → length (insert_sorted x l) ≡ suc (length l)
unfolding insert_sorted
length-insert_sorted x [] = refl
length-insert_sorted x (y ∷ l) = ground (arith, length-insert_sorted x l)

length-sort : (l : List Pair) → length (sort_by_start l) ≡ length l
unfolding sort_by_start
length-sort [] = refl
length-sort (x ∷ l) = omega (arith, length-insert_sorted x (sort_by_start l), length-sort l)

abbrev ids_of : List Pair → List Text
ids_of = map (λ x. x.0)

abbrev Held : List Text → List Pair → Type 0
Held ids = All (λ x. contains ids x.0 ≡ true)

Held-cons : (i : Text) (ids : List Text) (l : List Pair) → Held ids l → Held (i ∷ ids) l
unfolding contains
Held-cons i ids [] h = tt
Held-cons i ids (x ∷ l) h = ground (arith, Held-cons i ids l h.1)

Held-ids : (l : List Pair) → Held (ids_of l) l
unfolding contains
Held-ids [] = tt
Held-ids ((i, s) ∷ l) = (ground arith, Held-cons i (ids_of l) l (Held-ids l))

-- If the first `k` are taken, at most the others are spared.
spared-take :
    (ids : List Text) (k : ℕ) (l : List Pair) → Held ids (take k l) → spared ids l ≤ length l - k
unfolding spared
spared-take ids zero [] h = omega arith
spared-take ids zero ((i, s) ∷ l) h = ground (arith, spared-take ids zero l tt)
spared-take ids (suc k) [] h = omega arith
spared-take ids (suc k) ((i, s) ∷ l) h = ground (arith, spared-take ids k l h.1)

-- The active sessions on the account after the cut are those that the list spares.
count-ended :
    (provider account_id reason : Text) (ids : List Text) (m : List Pair)
    → count_values
        (active_on_account provider account_id)
        (map_values (λ id s. if contains ids id && is_active s then ended reason s else s) m)
      ≡ spared ids (select_pairs (λ _ s. active_on_account provider account_id s) m)
unfolding count_values map_values spared select_pairs
count-ended provider account_id reason ids [] = refl
count-ended provider account_id reason ids ((i, s) ∷ m) =
    ground (arith, count-ended provider account_id reason ids m)

enforce_cap-le :
    (e : Engine) (provider account_id : Text) (limit : ℕ)
    → count_values
        (active_on_account provider account_id)
        (enforce_cap e provider account_id (pos limit)).0.sessions
      ≤ limit
unfolding enforce_cap end_indexed end_where cut excess
enforce_cap-le e provider account_id limit =
    let active = select_pairs (λ _ s. active_on_account provider account_id s) e.sessions in
    let sorted = sort_by_start active in
    let k = length active - limit in
    let ids = ids_of (take k sorted) in
    omega (
      arith,
      count-ended provider account_id (text "stream limit lowered by the account owner") ids
          e.sessions,
      spared-sort ids active,
      length-sort active,
      spared-take ids k sorted (Held-ids (take k sorted)),
    )

-- Once `ApplyAccountCap` has enforced a limit that is not negative, the account has at most that
-- many active sessions; without `enforceNow` the engine is as it was and nothing is ended.
pub apply_account_cap_lem :
    (e : Engine) (w : Wiring) (provider account_id : Text) (constraints : Set × Set) (limit : ℕ)
    → resolve_constraints w provider account_id ≡ some constraints
    → limit_under e constraints ≡ pos limit
    → (count_values
          (active_on_account provider account_id)
          (apply_account_cap e w provider account_id true).0.sessions
        ≤ limit)
      × (apply_account_cap e w provider account_id false ≡ (e, passed 0))
unfolding apply_account_cap
apply_account_cap_lem e w provider account_id constraints limit h l =
    rw (h, l, apply_account_cap) (enforce_cap-le e provider account_id limit, refl)
