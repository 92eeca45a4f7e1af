-- ===== src/Api/Rollback.antt =====
-- What `LinkAccount` of core/internal/apiserver/accounts.go leaves in the account store.
use abcmovies.Base.{
  ℕ, ◌≡◌, ◌≢◌, refl, ap, ◌∙◌, Text, text_key, Option, none, some, lookup, insert, lookup-insert,
  lookup-delete, arith, Option-cases, Bool-cases, inl, inr,
}
use abcmovies.Accounts.Record.{Account}
use abcmovies.Accounts.Store.{Vault, add, save, remove, sharing, asked, stored}
use abcmovies.Api.Requests.{Code, internal, validate_sharing, api_visibility}
use abcmovies.Api.Link.{
  Linking, LinkAccountRequest, attach, store_account, link_account, validate_link_account_request,
  password_of, new_account, stamped,
}

-- A store that differs from another at most in one account.
abbrev pub Elsewhere : Text → Vault → Vault → Type 0
Elsewhere id v w =
    (j : Text)
    → j ≢ id
    → (lookup j w.records ≡ lookup j v.records) × (lookup j w.blobs ≡ lookup j v.blobs)

-- An account is there with its session, or neither is there.
abbrev pub Settled : Text → Vault → Vault × Option Code → Type 0
Settled id v (w, none) =
    (rec : Account) × (lookup id w.records ≡ some rec)
    × (blob : Text) × (lookup id w.blobs ≡ some blob)
Settled id v (w, some c) = (lookup id w.records ≡ none) × (lookup id w.blobs ≡ none)

removed-Settled :
    (id : Text) (v w : Vault) (c : Code)
    → Elsewhere id v w
    → Settled id v (remove w id, some c) × Elsewhere id v (remove w id)
unfolding remove
removed-Settled id v w c e = (
  (ground (arith, lookup-delete id id w.records), ground (arith, lookup-delete id id w.blobs)),
  λ j other. ground (arith, e j other, lookup-delete id j w.records, lookup-delete id j w.blobs),
)

attach-Settled :
    (y : Linking) (rec a : Account) (v w : Vault) (blob : Text)
    → lookup rec.id w.records ≡ some a
    → lookup rec.id w.blobs ≡ some blob
    → Elsewhere rec.id v w
    → Settled rec.id v (attach y rec w) × Elsewhere rec.id v (attach y rec w).0
unfolding attach
attach-Settled y rec a v w blob found kept e = elim (Option-cases y.attacher) [
  | inl none_armed ↦ rw (attach, none_armed) ((a, found, blob, kept), e)
  | inr (f, armed) ↦ elim (Bool-cases (f rec)) [
    | inl taken ↦ rw (attach, armed, taken) ((a, found, blob, kept), e)
    | inr refused ↦ rw (attach, armed, refused) (removed-Settled rec.id v w internal e)
  ]
]

added :
    (y : Linking) (now : ℕ) (rec : Account) (v w : Vault)
    → add y.trim v now rec ≡ some w
    → (a : Account) × (lookup rec.id w.records ≡ some a)
      × (w.blobs ≡ v.blobs)
      × ((j : Text) → j ≢ rec.id → lookup j w.records ≡ lookup j v.records)
unfolding add
added y now rec v w h =
    elim (Option-cases (sharing y.trim (asked rec.visibility) rec.shared_with)) [
      | inl refused ↦ absurd (ground (arith, refused))
      | inr (c, chosen) ↦
          let e : insert rec.id (stored rec c now) v.records ≡ w.records = ground (arith, chosen) in
          (
            stored rec c now,
            ground (arith, e, lookup-insert rec.id rec.id (stored rec c now) v.records),
            ground (arith, chosen),
            λ j other.
                ground (arith, e, other, lookup-insert rec.id j (stored rec c now) v.records),
          )
    ]

store_account-Settled :
    (y : Linking) (now : ℕ) (rec : Account) (blob : Text) (v : Vault)
    → Settled rec.id v (store_account y now rec blob v)
      × Elsewhere rec.id v (store_account y now rec blob v).0
unfolding store_account save
store_account-Settled y now rec blob v =
    let w = save v rec.id blob in
    let saved : Elsewhere rec.id v w =
      λ j other. (refl, ground (arith, other, lookup-insert rec.id j blob v.blobs)) in
    elim (Option-cases (add y.trim w now rec)) [
      | inl refused ↦ rw (store_account, refused) (removed-Settled rec.id v w internal saved)
      | inr (u, done) ↦
          let (a, found, kept, rest) = added y now rec w u done in
          rw (store_account, done)
            (attach-Settled y rec a v u blob found
              (ap (λ bs. lookup rec.id bs) kept
                ∙ ground (arith, lookup-insert rec.id rec.id blob v.blobs))
              (λ j other. (rest j other, ap (λ bs. lookup j bs) kept ∙ (saved j other).1)))
    ]

-- A call of LinkAccount under an id that the store does not know either leaves the account there with
-- its session, and succeeds, or leaves neither, and fails; what the store holds of other accounts stays.
pub link_account-Settled :
    (y : Linking) (v : Vault) (uid id : Text) (now : ℕ) (r : LinkAccountRequest)
    → lookup id v.records ≡ none
    → lookup id v.blobs ≡ none
    → Settled id v (link_account y v uid id now r)
      × Elsewhere id v (link_account y v uid id now r).0
unfolding link_account
link_account-Settled y v uid id now r unknown unsaved =
    let same : Elsewhere id v v = λ j other. (refl, refl) in
    elim (Bool-cases (validate_link_account_request r)) [
      | inr bad ↦ rw (link_account, bad) ((unknown, unsaved), same)
      | inl good ↦ elim (Option-cases (lookup r.provider y.probers)) [
        | inl absent ↦ rw (link_account, good, absent) ((unknown, unsaved), same)
        | inr (probe, armed) ↦
            elim (Option-cases
              (validate_sharing y.user_directory (api_visibility r.visibility) r.shared_with)) [
                | inr (c, refused) ↦
                    rw (link_account, good, armed, refused) ((unknown, unsaved), same)
                | inl fine ↦
                    elim (Option-cases (
                      probe (y.trim_right r.base_url) (password_of r).username
                        (password_of r).password)) [
                          | inl rejected ↦
                              rw (link_account, good, armed, fine, rejected)
                                ((unknown, unsaved), same)
                          | inr (blob, confirmed) ↦
                              rw (link_account, good, armed, fine, confirmed)
                                (store_account-Settled y now (stamped now (new_account y uid id r))
                                  blob v)
                        ]
              ]
      ]
    ]
