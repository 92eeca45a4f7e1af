-- ===== src/Api/Writes.antt =====
-- What the writes of `UpdateAccount` in core/internal/apiserver/accounts.go do to the account store.
use abcmovies.Base.{
  ℕ, ◌≡◌, ◌≢◌, refl, subst, sym, ap, ◌∙◌, true, List, Text, text_key, Option, none, some, lookup,
  insert, lookup-insert, arith, Option-cases, inl, inr,
}
use abcmovies.Accounts.Record.{Account, Visibility}
use abcmovies.Accounts.Store.{
  Vault, update, share, set_sharing, set_max_concurrent_streams, set_cap_change_policy, kept,
  change, sets_sharing, sets_max, sets_policy,
}
use abcmovies.Accounts.Invariant.{IsCanonical, IsShape, change-IsCanonical}
use abcmovies.Api.Requests.{
  AccountSharing, UpdateAccountRequest, api_visibility, api_cap_change_policy,
}
use abcmovies.Api.Handlers.{
  Setting, sharing_stage, max_stage, policy_stage, write_settings, same_visibility, same_members,
}
use abcmovies.Api.Members.{same_members-sorted}

-- A record of the same account of the same owner.
abbrev pub Akin : Account → Account → Type 0
Akin a b = (b.id ≡ a.id) × (b.provider ≡ a.provider) × (b.owner_user_id ≡ a.owner_user_id)

abbrev pub SameSharing : Account → Account → Type 0
SameSharing a b = (b.visibility ≡ a.visibility) × (b.shared_with ≡ a.shared_with)

-- The sharing stays if none is asked for.
abbrev pub Edited : Option AccountSharing → Account → Account → Type 0
Edited o a b = Akin a b × (o ≡ none → SameSharing a b)

-- A write to the record of one account.
pub record Wrote (id : Text) (R : Account → Account → Type 0) (v w : Vault) : Type 0 where
  pub others : (j : Text) → j ≢ id → lookup j w.records ≡ lookup j v.records
  pub own :
      (a : Account)
      → lookup id v.records ≡ some a
      → a.id ≡ id
      → (b : Account) × (lookup id w.records ≡ some b) × R a b

update-Wrote :
    (R : Account → Account → Type 0) (v w : Vault) (id : Text) (mutate : Account → Option Account)
    → ((a b : Account) → mutate a ≡ some b → R a b)
    → update v id mutate ≡ some w
    → Wrote id R v w
unfolding update
update-Wrote R v w id mutate keeps h = elim (Option-cases (lookup id v.records)) [
  | inl gone ↦ absurd (ground (arith, gone))
  | inr (a, found) ↦ elim (Option-cases (mutate a)) [
    | inl refused ↦ absurd (ground (arith, found, refused))
    | inr (b, done) ↦
        let e : insert id b v.records ≡ w.records = ground (arith, found, done) in
        record {
          others = λ j other. ground (arith, e, lookup-insert id j b v.records);
          own = λ a' found' own. (
            b,
            ap (λ rs. lookup id rs) (sym e) ∙ lookup-insert id id b v.records ∙ ground arith,
            keeps a' b (ground (arith, found, done)),
          );
        }
  ]
]

stays-Wrote : (o : Option AccountSharing) (id : Text) (v : Vault) → Wrote id (Edited o) v v
stays-Wrote o id v = record {
  others = λ j other. refl;
  own = λ a found own. (a, found, ((refl, refl, refl), λ e. (refl, refl)));
}

Wrote-trans :
    (o : Option AccountSharing) (id : Text) (u v w : Vault)
    → Wrote id (Edited o) u v
    → Wrote id (Edited o) v w
    → Wrote id (Edited o) u w
Wrote-trans o id u v w p q = record {
  others = λ j other. q.others j other ∙ p.others j other;
  own = λ a found own.
      let (b, found', ((i, pr, ow), sh)) = p.own a found own in
      let (c, found'', ((i', pr', ow'), sh')) = q.own b found' (i ∙ own) in
      (
        c,
        found'',
        (
          (i' ∙ i, pr' ∙ pr, ow' ∙ ow),
          λ e. let (x, z) = sh e in let (x', z') = sh' e in (x' ∙ x, z' ∙ z),
        ),
      );
}

-- A stage keeps the store's records in form and writes to one of them.
abbrev pub Stage : Option AccountSharing → Text → Vault → Vault → Type 0
Stage o id v w = Wrote id (Edited o) v w × (IsCanonical v → IsCanonical w)

sharing_stage-Stage :
    (y : Setting) (old : Account) (o : Option AccountSharing) (v w : Vault)
    → sharing_stage y old o v ≡ some w
    → Stage o old.id v w
unfolding set_sharing change
sharing_stage-Stage y old none v w h =
    let e : v ≡ w = ground arith in
    subst (Stage none old.id v) e (stays-Wrote none old.id v, λ c. c)
sharing_stage-Stage y old (some sh) v w h = (
  update-Wrote (Edited (some sh)) v w old.id
      (share y.trim (api_visibility sh.visibility) sh.shared_with)
      (λ a b e. (ground arith, λ i. absurd (ground arith))) h,
  λ c. subst IsCanonical (ap (kept v) h) (
      change-IsCanonical y.trim v
        (sets_sharing old.id (api_visibility sh.visibility) sh.shared_with) c),
)

max_stage-Stage :
    (y : Setting) (old : Account) (o : Option AccountSharing) (m : Option ℕ) (v w : Vault)
    → max_stage old m v ≡ some w
    → Stage o old.id v w
unfolding set_max_concurrent_streams change
max_stage-Stage y old o none v w h =
    let e : v ≡ w = ground arith in subst (Stage o old.id v) e (stays-Wrote o old.id v, λ c. c)
max_stage-Stage y old o (some n) v w h = (
  update-Wrote (Edited o) v w old.id (λ a. some (record a { max_concurrent_streams = n }))
      (λ a b e. (ground arith, λ i. ground arith)) h,
  λ c. subst IsCanonical (ap (kept v) h) (change-IsCanonical y.trim v (sets_max old.id n) c),
)

policy_stage-Stage :
    (y : Setting) (old : Account) (o : Option AccountSharing) (p : Option ℕ) (v w : Vault)
    → policy_stage old p v ≡ some w
    → Stage o old.id v w
unfolding set_cap_change_policy change
policy_stage-Stage y old o none v w h =
    let e : v ≡ w = ground arith in subst (Stage o old.id v) e (stays-Wrote o old.id v, λ c. c)
policy_stage-Stage y old o (some p) v w h = (
  update-Wrote (Edited o) v w old.id
      (λ a. some (record a { cap_change_policy = api_cap_change_policy p }))
      (λ a b e. (ground arith, λ i. ground arith)) (ground arith),
  λ c.
      subst IsCanonical (ap (kept v) h)
        (change-IsCanonical y.trim v (sets_policy old.id (api_cap_change_policy p)) c),
)

-- All writes together, where none of them fails.
pub write_settings-Stage :
    (y : Setting) (old : Account) (req : UpdateAccountRequest) (v w : Vault)
    → write_settings y old req v ≡ (w, none)
    → Stage req.sharing old.id v w
unfolding write_settings
write_settings-Stage y old req v w h = elim (Option-cases (sharing_stage y old req.sharing v)) [
  | inl e ↦ absurd (ground (arith, e))
  | inr (v1, e1) ↦ elim (Option-cases (max_stage old req.max_concurrent_streams v1)) [
    | inl e ↦ absurd (ground (arith, e1, e))
    | inr (v2, e2) ↦ elim (Option-cases (policy_stage old req.cap_change_policy v2)) [
      | inl e ↦ absurd (ground (arith, e1, e2, e))
      | inr (v3, e3) ↦
          let same : v3 ≡ w = ground (arith, e1, e2, e3) in
          let (p1, c1) = sharing_stage-Stage y old req.sharing v v1 e1 in
          let (p2, c2) = max_stage-Stage y old req.sharing req.max_concurrent_streams v1 v2 e2 in
          let (p3, c3) = policy_stage-Stage y old req.sharing req.cap_change_policy v2 v3 e3 in
          subst (Stage req.sharing old.id v) same (
            Wrote-trans req.sharing old.id v v1 v3 p1
                (Wrote-trans req.sharing old.id v1 v2 v3 p2 p3),
            λ c. c3 (c2 (c1 c)),
          )
    ]
  ]
]

same_shape :
    (v w : Visibility) (a b : List Text)
    → IsShape v a
    → IsShape w b
    → same_visibility w v ≡ true
    → same_members a b ≡ true
    → (w ≡ v) × (b ≡ a)
unfolding same_visibility
same_shape Visibility.private Visibility.private a b so sr sv sm = (refl, ground arith)
same_shape Visibility.public Visibility.public a b so sr sv sm = (refl, ground arith)
same_shape Visibility.shared Visibility.shared a b so sr sv sm =
    (refl, sym (same_members-sorted a b so.0 sr.0 sm))
same_shape v w a b so sr sv sm = absurd (ground arith)

-- Sharing in form that is told the same is the same.
pub unedited-SameSharing :
    (old rec : Account)
    → IsShape old.visibility old.shared_with
    → IsShape rec.visibility rec.shared_with
    → same_visibility rec.visibility old.visibility ≡ true
    → same_members old.shared_with rec.shared_with ≡ true
    → SameSharing old rec
unedited-SameSharing old rec so sr sv sm =
    same_shape old.visibility rec.visibility old.shared_with rec.shared_with so sr sv sm
