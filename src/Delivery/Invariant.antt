-- ===== src/Delivery/Invariant.antt =====
-- The session table and the session→account index agree in every state that the engine reaches.
use abcmovies.Base.{
  ℕ, suc, ◌≤◌, ◌≡◌, sym, ◌∙◌, inl, inr, Bool, true, List, Text, if◌then◌else◌, some, insert, delete,
  lookup, select_pairs, map_values, text_key, Text-discrete, arith, lookup-insert, lookup-delete,
  lookup-map_values, DistinctKeys, insert-DistinctKeys, delete-DistinctKeys,
  map_values-DistinctKeys, Option-cases,
}
use abcmovies.Delivery.Session.{
  Session, Engine, AccountKey, account_key, key_of, is_active, add_index, remove_index, session_id,
  session_id-injective,
}
use abcmovies.Delivery.Ending.{ended, unindex_all}
use abcmovies.Delivery.Index.{
  indexes, indexes-add, indexes-remove, indexes-delete, indexes-unindex_all, spared_kept,
}

-- A session after such a loop is one of before it, ended if it passed the test.
pub ended_inv :
    (p : Text → Session → Bool) (reason : Text) (j : Text) (u : Session)
    (sessions : List (Text × Session))
    → lookup j (map_values (λ id s. if p id s then ended reason s else s) sessions) ≡ some u
    → (s : Session) × (lookup j sessions ≡ some s) × (u ≡ (if p j s then ended reason s else s))
ended_inv p reason j u sessions h = elim (Option-cases (lookup j sessions)) [
  | inl e ↦ absurd (
      ground
        (arith, e, lookup-map_values (λ id s. if p id s then ended reason s else s) j sessions))
  | inr (s, e) ↦ (
    s,
    e,
    ground (arith, e, lookup-map_values (λ id s. if p id s then ended reason s else s) j sessions),
  )
]

-- One of the ids that the counter has handed out.
abbrev pub Minted : ℕ → Text → Type 0
Minted n id = (k : ℕ) × (k ≤ n) × (id ≡ session_id k)

unminted : {n : ℕ} {id : Text} → Minted n id → id ≡ session_id (suc n) → ⊥
unminted {n} (k, le, e) new = absurd (omega (arith, session_id-injective k (suc n) (sym e ∙ new)))

pub record Agrees (sessions : List (Text × Session)) (index : List (AccountKey × List Text))
    (seq : ℕ) : Type 0 where
  pub distinct : DistinctKeys sessions
  pub named : (id : Text) (s : Session) → lookup id sessions ≡ some s → s.id ≡ id
  pub minted : (id : Text) (s : Session) → lookup id sessions ≡ some s → Minted seq id
  pub indexed :
      (id : Text) (s : Session)
      → lookup id sessions ≡ some s
      → is_active s ≡ true
      → indexes index (key_of s) id ≡ true
  pub sound :
      (key : AccountKey) (id : Text) (s : Session)
      → indexes index key id ≡ true
      → lookup id sessions ≡ some s
      → key_of s ≡ key
  pub seen : (key : AccountKey) (id : Text) → indexes index key id ≡ true → Minted seq id

abbrev pub Consistent : Engine → Type 0
Consistent e = Agrees e.sessions e.by_account e.seq

module _ {sessions : List (Text × Session)} {index : List (AccountKey × List Text)} {seq : ℕ}
    (v : Agrees sessions index seq) where
  -- A write through a session's pointer that keeps its id and its key, and revives nothing.
  pub write-Agrees :
      (id : Text) (s s' : Session)
      → lookup id sessions ≡ some s
      → s'.id ≡ s.id
      → key_of s' ≡ key_of s
      → (is_active s' ≡ true → is_active s ≡ true)
      → Agrees (insert id s' sessions) index seq
  write-Agrees id s s' found same_id same_key revives = record {
    distinct = insert-DistinctKeys id s' sessions v.distinct;
    named =
        λ j u h. ground (arith, lookup-insert id j s' sessions, v.named j u, v.named id s found);
    minted =
        λ j u h. ground (arith, lookup-insert id j s' sessions, v.minted j u, v.minted id s found);
    indexed = λ j u h a.
        ground (arith, lookup-insert id j s' sessions, v.indexed j u, v.indexed id s found);
    sound = λ key j u i h.
        ground (arith, lookup-insert id j s' sessions, v.sound key j u i, v.sound key id s);
    seen = v.seen;
  }

  -- The counter moves on.
  pub later-Agrees : Agrees sessions index (suc seq)
  later-Agrees = record {
    distinct = v.distinct;
    named = v.named;
    minted = λ id s h. let (k, p, e) = v.minted id s h in (k, omega arith, e);
    indexed = v.indexed;
    sound = v.sound;
    seen = λ key id h. let (k, p, e) = v.seen key id h in (k, omega arith, e);
  }

  -- A session under an id that was never handed out.
  pub register-Agrees :
      (s : Session)
      → s.id ≡ session_id (suc seq)
      → Agrees (insert s.id s sessions) (add_index (key_of s) s.id index) (suc seq)
  register-Agrees s new = record {
    distinct = insert-DistinctKeys s.id s sessions v.distinct;
    named = λ j u h. ground (arith, lookup-insert s.id j s sessions, v.named j u);
    minted = λ j u h. elim (Text-discrete s.id j) [
      | yes p ↦ (suc seq, omega arith, sym p ∙ new)
      | no p ↦
          let (k, q, e) = v.minted j u (ground (arith, lookup-insert s.id j s sessions)) in
          (k, omega arith, e)
    ];
    indexed = λ j u h a. ground (
      arith,
      lookup-insert s.id j s sessions,
      v.indexed j u,
      indexes-add (key_of u) (key_of s) j s.id index,
    );
    sound = λ key j u i h. ground (
      arith,
      lookup-insert s.id j s sessions,
      indexes-add key (key_of s) j s.id index,
      v.sound key j u,
      λ (p : indexes index key j ≡ true) (q : s.id ≡ j). unminted (v.seen key j p) (sym q ∙ new),
    );
    seen = λ key j h. elim (Text-discrete s.id j) [
      | yes p ↦ (suc seq, omega arith, sym p ∙ new)
      | no p ↦
          let (k, q, e) = v.seen key j (ground (arith, indexes-add key (key_of s) j s.id index)) in
          (k, omega arith, e)
    ];
  }

  -- A session leaves the table, and its id its set.
  pub remove-Agrees :
      (key : AccountKey) (id : Text) → Agrees (delete id sessions) (remove_index key id index) seq
  remove-Agrees key id = record {
    distinct = delete-DistinctKeys id sessions v.distinct;
    named = λ j u h. ground (arith, lookup-delete id j sessions, v.named j u);
    minted = λ j u h. v.minted j u (ground (arith, lookup-delete id j sessions));
    indexed = λ j u h a. ground (
      arith,
      lookup-delete id j sessions,
      v.indexed j u,
      indexes-remove (key_of u) key j id index,
    );
    sound = λ k j u i h.
        ground (arith, lookup-delete id j sessions, v.sound k j u, indexes-remove k key j id index);
    seen = λ k j h. v.seen k j (ground (arith, indexes-remove k key j id index));
  }

  -- Sessions that pass a test end, and leave their sets.
  pub end-Agrees :
      (p : Text → Session → Bool) (reason : Text)
      → Agrees
          (map_values (λ id s. if p id s then ended reason s else s) sessions)
          (unindex_all (select_pairs p sessions) index)
          seq
  end-Agrees p reason = record {
    distinct = map_values-DistinctKeys _ sessions v.distinct;
    named =
        λ j u h. let (s, e, q) = ended_inv p reason j u sessions h in ground (arith, v.named j s e);
    minted = λ j u h. let (s, e, q) = ended_inv p reason j u sessions h in v.minted j s e;
    indexed = λ j u h a.
        let (s, e, q) = ended_inv p reason j u sessions h in
        ground (arith, v.indexed j s e, spared_kept p (key_of s) j sessions index s v.distinct e);
    sound = λ k j u i h.
        let (s, e, q) = ended_inv p reason j u sessions h in
        ground (arith, v.sound k j s (indexes-unindex_all (select_pairs p sessions) index k j i) e);
    seen = λ k j h. v.seen k j (indexes-unindex_all (select_pairs p sessions) index k j h);
  }

  -- The sessions of one key's set end, and the set goes.
  pub end_key-Agrees :
      (key : AccountKey) (reason : Text)
      → Agrees
          (map_values (λ id s. if indexes index key id then ended reason s else s) sessions)
          (delete key index)
          seq
  end_key-Agrees key reason = record {
    distinct = map_values-DistinctKeys _ sessions v.distinct;
    named = λ j u h.
        let (s, e, q) = ended_inv (λ id _. indexes index key id) reason j u sessions h in
        ground (arith, v.named j s e);
    minted = λ j u h.
        let (s, e, q) = ended_inv (λ id _. indexes index key id) reason j u sessions h in
        v.minted j s e;
    indexed = λ j u h a.
        let (s, e, q) = ended_inv (λ id _. indexes index key id) reason j u sessions h in
        ground (arith, v.indexed j s e, indexes-delete (key_of s) key j index);
    sound = λ k j u i h.
        let (s, e, q) = ended_inv (λ id _. indexes index key id) reason j u sessions h in
        ground (arith, v.sound k j s (ground (arith, indexes-delete k key j index)) e);
    seen = λ k j h. v.seen k j (ground (arith, indexes-delete k key j index));
  }
