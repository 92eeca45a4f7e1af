-- ===== src/Delivery/Index.antt =====
-- The session→account index of core/internal/delivery/delivery.go as a map from keys to sets of ids.
use abcmovies.Base.{
  ◌≡◌, refl, inl, inr, Bool, true, false, ◌&&◌, List, [], ◌∷◌, Text, ◌==◌, if◌then◌else◌, none,
  some, delete, lookup, contains, select_pairs, text_key, same, arith, lookup-insert, lookup-delete,
  DistinctKeys, Option-cases,
}
use abcmovies.Delivery.Session.{
  Session, AccountKey, account_key, key_of, index_of, add_index, without, remove_index,
}
use abcmovies.Delivery.Ending.{unindex_all}

contains-without :
    (id j : Text) (ids : List Text)
    → contains (without id ids) j ≡ (if id == j then false else contains ids j)
unfolding contains without
contains-without id j [] = ground arith
contains-without id j (i ∷ ids) = ground (arith, contains-without id j ids)

abbrev pub indexes : List (AccountKey × List Text) → AccountKey → Text → Bool
indexes index key id = contains (index_of key index) id

pub indexes-add :
    (k key : AccountKey) (j id : Text) (index : List (AccountKey × List Text))
    → indexes (add_index key id index) k j
      ≡ (if same key k && id == j then true else indexes index k j)
unfolding index_of add_index contains
indexes-add k key j id index = ground (arith, lookup-insert key k (id ∷ index_of key index) index)

pub indexes-remove :
    (k key : AccountKey) (j id : Text) (index : List (AccountKey × List Text))
    → indexes (remove_index key id index) k j
      ≡ (if same key k && id == j then false else indexes index k j)
unfolding index_of remove_index contains
indexes-remove k key j id index = elim (Option-cases (lookup key index)) [
  | inl e ↦ rw (e, remove_index) (ground (arith, e))
  | inr (ids, e) ↦
      rw (e, remove_index)
        (ground (arith, e, lookup-insert key k (without id ids) index, contains-without id j ids))
]

pub indexes-delete :
    (k key : AccountKey) (j : Text) (index : List (AccountKey × List Text))
    → indexes (delete key index) k j ≡ (if same key k then false else indexes index k j)
unfolding index_of contains
indexes-delete k key j index = ground (arith, lookup-delete key k index)

-- Removals take ids away and add none.
pub indexes-unindex_all :
    (victims : List (Text × Session)) (index : List (AccountKey × List Text)) (k : AccountKey)
    (j : Text)
    → indexes (unindex_all victims index) k j ≡ true
    → indexes index k j ≡ true
unfolding unindex_all
indexes-unindex_all [] index k j h = h
indexes-unindex_all ((id, s) ∷ victims) index k j h = ground (
  arith,
  indexes-unindex_all victims (remove_index (key_of s) id index) k j h,
  indexes-remove k (key_of s) j id index,
)

module _ (p : Text → Session → Bool) (k : AccountKey) (j : Text) where
  absent_kept :
      (m : List (Text × Session)) (index : List (AccountKey × List Text))
      → lookup j m ≡ none
      → indexes (unindex_all (select_pairs p m) index) k j ≡ indexes index k j
  unfolding unindex_all select_pairs lookup
  absent_kept [] index h = refl
  absent_kept ((id, s) ∷ m) index h = ground (
    arith,
    absent_kept m index,
    absent_kept m (remove_index (key_of s) id index),
    indexes-remove k (key_of s) j id index,
  )

  -- A session that does not end stays indexed as it was.
  pub spared_kept :
      (m : List (Text × Session)) (index : List (AccountKey × List Text)) (s : Session)
      → DistinctKeys m
      → lookup j m ≡ some s
      → p j s ≡ false
      → indexes (unindex_all (select_pairs p m) index) k j ≡ indexes index k j
  unfolding unindex_all select_pairs lookup
  spared_kept [] index s d h e = cc
  spared_kept ((id, t) ∷ m) index s d h e = ground (
    arith,
    absent_kept m index,
    spared_kept m index s d.1,
    spared_kept m (remove_index (key_of t) id index) s d.1,
    indexes-remove k (key_of t) j id index,
  )
