-- ===== src/Accounts/Invariant.antt =====
-- The form of every record that core/internal/accounts/accounts.go stores.
use abcmovies.Base.{
  ℕ, ◌≤◌, ◌≡◌, refl, sym, subst, inl, inr, true, false, List, [], ◌∷◌, Text, text_key, blank,
  Option, none, some, lookup, insert, lookup-insert, lookup-delete, times, Text-discrete, IsSorted,
  IsSorted-unique, sort_strings-IsSorted, arith, Option-cases,
}
use abcmovies.Accounts.Record.{Account, Visibility, CapChangePolicy, canon_users}
use abcmovies.Accounts.Store.{
  Vault, sharing, asked, stored, kept, add, update, set_status, share, set_sharing,
  set_max_concurrent_streams, set_cap_change_policy, remove, save, Change, adds, sets_status,
  sets_sharing, sets_max, sets_policy, removes, saves, change, changes, empty,
}
use abcmovies.Accounts.Roster.{times-canon_users, names}

-- A canonical roster: in order, nobody twice, no blank name.
abbrev pub IsRoster : List Text → Type 0
IsRoster users =
    IsSorted users × ((u : Text) → (times u users ≤ 1) × (blank u ≡ true → times u users ≡ 0))

-- A visibility that is set, and a roster only where it means something.
abbrev pub IsShape : Visibility → List Text → Type 0
IsShape Visibility.private users = users ≡ []
IsShape Visibility.public users = users ≡ []
IsShape Visibility.shared users = IsRoster users
IsShape v users = ⊥

abbrev pub IsCanonical : Vault → Type 0
IsCanonical s =
    (id : Text) (rec : Account)
    → lookup id s.records ≡ some rec
    → (rec.id ≡ id) × IsShape rec.visibility rec.shared_with

canon_users-IsRoster : (trim : Text → Text) (users : List Text) → IsRoster (canon_users trim users)
unfolding canon_users
canon_users-IsRoster trim users =
    (sort_strings-IsSorted _, λ u. ground (arith, times-canon_users trim users u))

abbrev IsShaped : Visibility × List Text → Type 0
IsShaped (v, users) = IsShape v users

sharing-IsShape :
    (trim : Text → Text) (v : Visibility) (users : List Text) (c : Visibility × List Text)
    → sharing trim v users ≡ some c
    → IsShape c.0 c.1
unfolding sharing
sharing-IsShape trim Visibility.private users c h =
    let e : (Visibility.private, []) ≡ c = ground arith in subst IsShaped e refl
sharing-IsShape trim Visibility.public users c h =
    let e : (Visibility.public, []) ≡ c = ground arith in subst IsShaped e refl
sharing-IsShape trim Visibility.shared [] c h = absurd (ground arith)
sharing-IsShape trim Visibility.shared (u ∷ users) c h =
    let e : (Visibility.shared, canon_users trim (u ∷ users)) ≡ c = ground arith in
    subst IsShaped e (canon_users-IsRoster trim (u ∷ users))
sharing-IsShape trim Visibility.unset users c h = absurd (ground arith)
sharing-IsShape trim (Visibility.other v) users c h = absurd (ground arith)

insert-IsCanonical :
    (s : Vault) (rec : Account)
    → IsCanonical s
    → IsShape rec.visibility rec.shared_with
    → IsCanonical (record s { records = insert rec.id rec s.records })
insert-IsCanonical s rec v shape id found h = elim (Text-discrete rec.id id) [
  | yes own ↦
      let e : rec ≡ found = ground (arith, own, lookup-insert rec.id id rec s.records) in
      subst (λ (r : Account). (r.id ≡ id) × IsShape r.visibility r.shared_with) e (own, shape)
  | no other ↦ v id found (ground (arith, other, lookup-insert rec.id id rec s.records))
]

-- A mutation that keeps the id and the shape.
Keeps : (Account → Option Account) → Type 0
Keeps mutate =
    (rec rec' : Account)
    → mutate rec ≡ some rec'
    → IsShape rec.visibility rec.shared_with
    → (rec'.id ≡ rec.id) × IsShape rec'.visibility rec'.shared_with

update-IsCanonical :
    (s s' : Vault) (id : Text) (mutate : Account → Option Account)
    → Keeps mutate
    → update s id mutate ≡ some s'
    → IsCanonical s
    → IsCanonical s'
unfolding update Keeps
update-IsCanonical s s' id mutate keeps h v = elim (Option-cases (lookup id s.records)) [
  | inl gone ↦ absurd (ground (arith, gone))
  | inr (rec, found) ↦ elim (Option-cases (mutate rec)) [
    | inl refused ↦ absurd (ground (arith, found, refused))
    | inr (rec', done) ↦
        let (own, shape) = v id rec found in
        let (same, shape') = keeps rec rec' done shape in
        let e : record s { records = insert rec'.id rec' s.records } ≡ s' =
          rw (same, own) (ground (arith, found, done)) in
        subst IsCanonical e (insert-IsCanonical s rec' v shape')
  ]
]

Keeps-write :
    (f : Account → Account)
    → ((rec : Account)
        → ((f rec).id ≡ rec.id)
          × ((f rec).visibility ≡ rec.visibility)
          × ((f rec).shared_with ≡ rec.shared_with))
    → Keeps (λ rec. some (f rec))
unfolding Keeps
Keeps-write f same rec rec' h shape =
    let (id, v, users) = same rec in
    let e : f rec ≡ rec' = ground arith in
    subst (λ (r : Account). (r.id ≡ rec.id) × IsShape r.visibility r.shared_with) e
      (
        id,
        subst (λ w. IsShape w (f rec).shared_with) (sym v)
            (subst (λ l. IsShape rec.visibility l) (sym users) shape),
      )

Keeps-share : (trim : Text → Text) (v : Visibility) (users : List Text) → Keeps (share trim v users)
unfolding Keeps
Keeps-share trim v users rec rec' h shape = elim (Option-cases (sharing trim v users)) [
  | inl refused ↦ absurd (ground (arith, refused))
  | inr (c, chosen) ↦
      let e : record rec { visibility = c.0; shared_with = c.1 } ≡ rec' = ground (arith, chosen) in
      subst (λ (r : Account). (r.id ≡ rec.id) × IsShape r.visibility r.shared_with) e
        (refl, sharing-IsShape trim v users c chosen)
]

add-IsCanonical :
    (trim : Text → Text) (s s' : Vault) (now : ℕ) (rec : Account)
    → add trim s now rec ≡ some s'
    → IsCanonical s
    → IsCanonical s'
unfolding add
add-IsCanonical trim s s' now rec h v =
    elim (Option-cases (sharing trim (asked rec.visibility) rec.shared_with)) [
      | inl refused ↦ absurd (ground (arith, refused))
      | inr (c, chosen) ↦
          let e : record s { records = insert rec.id (stored rec c now) s.records } ≡ s' =
            ground (arith, chosen) in
          subst IsCanonical e (
            insert-IsCanonical s (stored rec c now) v
              (sharing-IsShape trim (asked rec.visibility) rec.shared_with c chosen))
    ]

kept-IsCanonical :
    (s : Vault) (o : Option Vault)
    → IsCanonical s
    → ((s' : Vault) → o ≡ some s' → IsCanonical s')
    → IsCanonical (kept s o)
kept-IsCanonical s none v h = v
kept-IsCanonical s (some s') v h = h s' refl

set_cap_change_policy-IsCanonical :
    (s s' : Vault) (id : Text) (p : CapChangePolicy)
    → set_cap_change_policy s id p ≡ some s'
    → IsCanonical s
    → IsCanonical s'
unfolding set_cap_change_policy
set_cap_change_policy-IsCanonical s s' id p h v =
    update-IsCanonical s s' id (λ rec. some (record rec { cap_change_policy = p }))
      (Keeps-write (λ rec. record rec { cap_change_policy = p }) (λ rec. (refl, refl, refl)))
      (ground arith) v

pub change-IsCanonical :
    (trim : Text → Text) (s : Vault) (c : Change) → IsCanonical s → IsCanonical (change trim s c)
unfolding change set_status set_sharing set_max_concurrent_streams remove save
change-IsCanonical trim s (adds rec now) v =
    kept-IsCanonical s _ v (λ s' h. add-IsCanonical trim s s' now rec h v)
change-IsCanonical trim s (sets_status id status) v = kept-IsCanonical s _ v (λ s' h.
    update-IsCanonical s s' id (λ rec. some (record rec { status = status }))
      (Keeps-write (λ rec. record rec { status = status }) (λ rec. (refl, refl, refl))) h v)
change-IsCanonical trim s (sets_sharing id w users) v =
    kept-IsCanonical s _ v
      (λ s' h. update-IsCanonical s s' id (share trim w users) (Keeps-share trim w users) h v)
change-IsCanonical trim s (sets_max id n) v = kept-IsCanonical s _ v (λ s' h.
    update-IsCanonical s s' id (λ rec. some (record rec { max_concurrent_streams = n }))
      (Keeps-write (λ rec. record rec { max_concurrent_streams = n }) (λ rec. (refl, refl, refl))) h
      v)
change-IsCanonical trim s (sets_policy id p) v =
    kept-IsCanonical s _ v (λ s' h. set_cap_change_policy-IsCanonical s s' id p h v)
change-IsCanonical trim s (removes id) v =
    λ j rec h. v j rec (ground (arith, lookup-delete id j s.records))
change-IsCanonical trim s (saves id blob) v = v

-- Whatever calls are made on a canonical store, every record keeps its id, has one of the three
-- visibilities, and has a roster only if it is shared: sorted, without blanks and repetitions.
pub changes-IsCanonical :
    (trim : Text → Text) (cs : List Change) (s : Vault)
    → IsCanonical s
    → IsCanonical (changes trim s cs)
unfolding changes
changes-IsCanonical trim [] s v = v
changes-IsCanonical trim (c ∷ cs) s v =
    changes-IsCanonical trim cs (change trim s c) (change-IsCanonical trim s c v)

pub empty-IsCanonical : IsCanonical empty
unfolding empty lookup
empty-IsCanonical id rec h = absurd (ground arith)

-- Sharing with a non-empty roster that names nobody is accepted: the account is then shared, and with
-- nobody.
pub share-blank :
    (trim : Text → Text) (rec : Account) (user : Text) (users : List Text)
    → ((u : Text) → names trim (user ∷ users) u ≡ false)
    → share trim Visibility.shared (user ∷ users) rec
      ≡ some (record rec { visibility = Visibility.shared; shared_with = [] })
unfolding sharing
share-blank trim rec user users h =
    let e : canon_users trim (user ∷ users) ≡ [] =
      IsSorted-unique _ [] (canon_users-IsRoster trim (user ∷ users)).0 tt
        (λ u. ground (arith, times-canon_users trim (user ∷ users) u, h u)) in
    rw e refl
