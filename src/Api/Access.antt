-- ===== src/Api/Access.antt =====
-- Who has an active session on an account after the calls of core/internal/apiserver/accounts.go.
use abcmovies.Base.{
  ◌≡◌, ◌≢◌, refl, subst, sym, ap, ◌∙◌, Bool, true, false, ◌∷◌, Text, text_key, Text-discrete,
  contains, Option, none, some, lookup, insert, lookup-insert, arith, Option-cases, Bool-cases, inl,
  inr,
}
use abcmovies.Accounts.Record.{Account}
use abcmovies.Accounts.Store.{Vault, get}
use abcmovies.Accounts.Invariant.{IsCanonical, IsShape}
use abcmovies.Library.Reach.{Reach}
use abcmovies.Library.Service.{Service, set_reach_sharing, shared, sweep_user_caches}
use abcmovies.Delivery.Session.{Session, Engine}
use abcmovies.Delivery.Ending.{cut}
use abcmovies.Api.Requests.{Code, UpdateAccountRequest, validate_update_account_request}
use abcmovies.Api.Handlers.{
  Server, Setting, sharing_edited, swap, cut_off, cap_live, go_live, written, write_settings,
  update_account,
}
use abcmovies.Api.Writes.{
  Akin, SameSharing, Edited, Stage, write_settings-Stage, unedited-SameSharing,
}
use abcmovies.Api.Cutoff.{Allowed, RunsOn, cap_live-Ends, cut_off-active}

-- The store is in form, only users who may use a linked account have an active session on it, and
-- its reach has the record's audience.
pub record IsGuarded (s : Server) : Type 0 where
  pub canonical : IsCanonical s.vault
  pub allowed :
      (id account : Text) (u : Session) (rec : Account)
      → lookup id s.engine.sessions ≡ some u
      → lookup account s.vault.records ≡ some rec
      → RunsOn rec u
      → Allowed rec u.context.member_user_id
  pub matched :
      (account : Text) (rec : Account) (r : Reach)
      → lookup account s.vault.records ≡ some rec
      → lookup account s.library.reaches ≡ some r
      → (r.visibility ≡ rec.visibility) × (r.members ≡ rec.shared_with)

Stage-found :
    (req : UpdateAccountRequest) (old : Account) (v w : Vault)
    → Stage req.sharing old.id v w
    → IsCanonical v
    → lookup old.id v.records ≡ some old
    → (rec : Account) × (lookup old.id w.records ≡ some rec) × Edited req.sharing old rec
Stage-found req old v w (p, c) canonical found = p.own old found refl

-- Sharing that was not edited is the same.
unedited-same :
    (old rec : Account) (req : UpdateAccountRequest)
    → IsShape old.visibility old.shared_with
    → IsShape rec.visibility rec.shared_with
    → Edited req.sharing old rec
    → sharing_edited old rec req ≡ false
    → SameSharing old rec
unedited-same old rec req so sr (akin, kept) h = elim (Option-cases req.sharing) [
  | inl e ↦ kept e
  | inr (sh, e) ↦ unedited-SameSharing old rec so sr (ground (arith, e)) (ground (arith, e))
]

SameSharing-Allowed :
    (old rec : Account) (user : Text)
    → Akin old rec
    → SameSharing old rec
    → Allowed old user
    → Allowed rec user
SameSharing-Allowed old rec user (i, p, o) (v, m) (inl wide) = inl (v ∙ wide)
SameSharing-Allowed old rec user (i, p, o) (v, m) (inr named) = inr (
    ap (λ l. contains l user) (ap (λ l. rec.owner_user_id ∷ l) m ∙ ap (λ t. t ∷ old.shared_with) o)
    ∙ named)

-- The reaches of other accounts stay, and the reach of an edited account gets the record's audience.
swap-reaches :
    (rec : Account) (edited : Bool) (l m : Service) (j : Text) (r : Reach)
    → swap rec edited l ≡ some m
    → lookup j m.reaches ≡ some r
    → (j ≢ rec.id → lookup j l.reaches ≡ some r)
      × (edited ≡ true
          → j ≡ rec.id
          → (r.visibility ≡ rec.visibility) × (r.members ≡ rec.shared_with))
      × (edited ≡ false → lookup j l.reaches ≡ some r)
unfolding set_reach_sharing sweep_user_caches
swap-reaches rec false l m j r h found = ground arith
swap-reaches rec true l m j r h found = elim (Option-cases (lookup rec.id l.reaches)) [
  | inl gone ↦ absurd (ground (arith, gone))
  | inr (b, there) ↦
      let step = lookup-insert rec.id j (shared b rec.visibility rec.shared_with) l.reaches in
      let e : insert rec.id (shared b rec.visibility rec.shared_with) l.reaches ≡ m.reaches =
        ground (arith, there) in
      (
        λ other. ground (arith, there, step, e, other),
        λ i same.
            let x : shared b rec.visibility rec.shared_with ≡ r =
              ground (arith, there, step, e, same) in
            (ap (λ (q : Reach). q.visibility) (sym x), ap (λ (q : Reach). q.members) (sym x)),
        λ i. absurd (ground (arith, i)),
      )
]

-- The server after a call that succeeds, part by part.
record Live (y : Setting) (s s' : Server) (old rec : Account) (req : UpdateAccountRequest)
    (v : Vault) : Type 0 where
  pub vault : s'.vault ≡ v
  pub swapped : swap rec (sharing_edited old rec req) s.library ≡ some s'.library
  pub engine :
      s'.engine
      ≡ cap_live y rec req.max_concurrent_streams
          (cut_off rec (sharing_edited old rec req) s.engine)

go_live-Live :
    (y : Setting) (s s' : Server) (old rec : Account) (req : UpdateAccountRequest)
    → go_live y s old req (some rec) ≡ (s', none)
    → Live y s s' old rec req s.vault
unfolding go_live
go_live-Live y s s' old rec req h =
    elim (Option-cases (swap rec (sharing_edited old rec req) s.library)) [
      | inl e ↦ absurd (ground (arith, e))
      | inr (library, e) ↦ record {
        vault = ground (arith, e);
        swapped = ground (arith, e);
        engine = ground (arith, e);
      }
    ]

Akin-RunsOn : (old rec : Account) (u : Session) → Akin old rec → RunsOn rec u → RunsOn old u
Akin-RunsOn old rec u (i, p, o) (a, prov, acc) = (a, prov ∙ p, acc ∙ i)

Live-IsGuarded :
    (y : Setting) (s s' : Server) (old rec : Account) (req : UpdateAccountRequest) (v : Vault)
    → IsGuarded s
    → lookup old.id s.vault.records ≡ some old
    → Stage req.sharing old.id s.vault v
    → lookup old.id v.records ≡ some rec
    → Edited req.sharing old rec
    → Live y s s' old rec req v
    → IsGuarded s'
Live-IsGuarded y s s' old rec req v g had stage has kept l =
    let canonical' : IsCanonical v = stage.1 g.canonical in
    let same_sharing : sharing_edited old rec req ≡ false → SameSharing old rec =
      unedited-same old rec req (g.canonical old.id old had).1 (canonical' old.id rec has).1 kept in
    record {
      canonical = subst IsCanonical (sym l.vault) canonical';
      allowed = λ id account u r found there on.
          let was =
            cap_live-Ends y rec req.max_concurrent_streams
              (cut_off rec (sharing_edited old rec req) s.engine) id u
              (ap (λ (e : Engine). lookup id e.sessions) (sym l.engine) ∙ found) on.0 in
          let (before, cut) =
            cut_off-active s.engine rec (sharing_edited old rec req) id u was on.0 in
          let there' : lookup account v.records ≡ some r =
            ap (λ (w : Vault). lookup account w.records) (sym l.vault) ∙ there in
          elim (Text-discrete account old.id) [
            | no other ↦
                g.allowed id account u r before (sym (stage.0.others account other) ∙ there') on
            | yes e ↦
                let own : rec ≡ r =
                  ground (arith, e, there', has, ap (λ j. lookup j v.records) e) in
                subst (λ q. Allowed q u.context.member_user_id) own
                  (elim (Bool-cases (sharing_edited old rec req)) [
                    | inl ed ↦ cut ed (subst (λ q. RunsOn q u) (sym own) on)
                    | inr un ↦
                        SameSharing-Allowed old rec u.context.member_user_id kept.0
                          (same_sharing un)
                          (g.allowed id old.id u old before had
                            (Akin-RunsOn old rec u kept.0 (subst (λ q. RunsOn q u) (sym own) on)))
                  ])
          ];
      matched = λ account r q there reach.
          let there' : lookup account v.records ≡ some r =
            ap (λ (w : Vault). lookup account w.records) (sym l.vault) ∙ there in
          let (away, new, still) =
            swap-reaches rec (sharing_edited old rec req) s.library s'.library account q l.swapped
              reach in
          elim (Text-discrete account old.id) [
            | no other ↦
                g.matched account r q (sym (stage.0.others account other) ∙ there')
                  (away (λ e. other (e ∙ kept.0.0)))
            | yes e ↦
                let own : rec ≡ r =
                  ground (arith, e, there', has, ap (λ j. lookup j v.records) e) in
                subst (λ a. (q.visibility ≡ a.visibility) × (q.members ≡ a.shared_with)) own
                  (elim (Bool-cases (sharing_edited old rec req)) [
                    | inl ed ↦ new ed (e ∙ sym kept.0.0)
                    | inr un ↦
                        let (vis, members) =
                          g.matched account old q (ap (λ j. lookup j s.vault.records) e ∙ had)
                            (still un) in
                        let (vis', members') = same_sharing un in
                        (vis ∙ sym vis', members ∙ sym members')
                  ])
          ];
    }

relive :
    (y : Setting) (s s' : Server) (old rec : Account) (req : UpdateAccountRequest) (v : Vault)
    → Live y (record s { vault = v }) s' old rec req v
    → Live y s s' old rec req v
relive y s s' old rec req v l = record { vault = l.vault; swapped = l.swapped; engine = l.engine }

-- A successful UpdateAccount is the owner's, and has written all settings and brought them live.
update_account-Live :
    (y : Setting) (s s' : Server) (uid : Text) (req : UpdateAccountRequest)
    → update_account y s uid req ≡ (s', none)
    → (old : Account) × (get s.vault req.account_id ≡ some old)
      × (written y s old req (write_settings y old req s.vault) ≡ (s', none))
unfolding update_account
update_account-Live y s s' uid req h = elim (Bool-cases (validate_update_account_request req)) [
  | inr bad ↦ absurd (ground (arith, bad))
  | inl good ↦ elim (Option-cases (get s.vault req.account_id)) [
    | inl gone ↦ absurd (ground (arith, good, gone))
    | inr (old, had) ↦ (old, had, ground (arith, good, had))
  ]
]

written-Live :
    (y : Setting) (s s' : Server) (old : Account) (req : UpdateAccountRequest)
    (p : Vault × Option Code)
    → written y s old req p ≡ (s', none)
    → (p.1 ≡ none) × (go_live y (record s { vault = p.0 }) old req (get p.0 old.id) ≡ (s', none))
written-Live y s s' old req (v, some c) h = absurd (ground arith)
written-Live y s s' old req (v, none) h = (refl, h)

-- If on a server all records are in form, only users who may use a linked account have active sessions
-- on it, and the account's reach has the record's audience, then this holds after an UpdateAccount that
-- succeeds: who lost the account has no active session on it.
pub update_account-IsGuarded :
    (y : Setting) (s s' : Server) (uid : Text) (req : UpdateAccountRequest)
    → IsGuarded s
    → update_account y s uid req ≡ (s', none)
    → IsGuarded s'
update_account-IsGuarded y s s' uid req g h =
    let (old, had, wrote) = update_account-Live y s s' uid req h in
    let (own, shape) = g.canonical req.account_id old had in
    let had' : lookup old.id s.vault.records ≡ some old =
      ap (λ j. lookup j s.vault.records) own ∙ had in
    let w = write_settings y old req s.vault in
    let (ok, went) = written-Live y s s' old req w wrote in
    let stage = write_settings-Stage y old req s.vault w.0 (ground (arith, ok)) in
    let (rec, has, kept) = Stage-found req old s.vault w.0 stage g.canonical had' in
    Live-IsGuarded y s s' old rec req w.0 g had' stage has kept (
      relive y s s' old rec req w.0 (
        go_live-Live y (record s { vault = w.0 }) s' old rec req
          (ap (go_live y (record s { vault = w.0 }) old req) (sym has) ∙ went)))
