-- ===== src/Api/Removal.antt =====
-- What `RemoveAccount` of core/internal/apiserver/accounts.go leaves of an account.
use abcmovies.Base.{
  ◌≡◌, ◌≢◌, true, false, Text, text_key, ◌==◌, blank, none, some, lookup, lookup-delete, arith,
  Option-cases, Bool-cases, inl, inr,
}
use abcmovies.Accounts.Record.{Account}
use abcmovies.Accounts.Store.{get, remove}
use abcmovies.Library.Service.{remove_reach}
use abcmovies.Delivery.Session.{Session, Engine, is_active}
use abcmovies.Delivery.Ending.{end_indexed, revoked_reason, revoke_all_on_account}
use abcmovies.Api.Handlers.{Server, unlinked, remove_account}
use abcmovies.Api.Access.{IsGuarded}
use abcmovies.Api.Cutoff.{end_where-active}

revoke_all-active :
    (e : Engine) (account_id id : Text) (u : Session)
    → lookup id (revoke_all_on_account e account_id).0.sessions ≡ some u
    → is_active u ≡ true
    → (lookup id e.sessions ≡ some u) × ((u.context.account_id == account_id) ≡ false)
unfolding revoke_all_on_account end_indexed
revoke_all-active e account_id id u found a =
    end_where-active (λ _ s. s.context.account_id == account_id) revoked_reason e id u found a

unlinked-IsGuarded :
    (s : Server) (uid : Text) (rec : Account) → IsGuarded s → IsGuarded (unlinked s uid rec)
unfolding remove remove_reach
unlinked-IsGuarded s uid rec g = record {
  canonical = λ j r found. g.canonical j r (ground (arith, lookup-delete rec.id j s.vault.records));
  allowed = λ id j u r found there on.
      g.allowed id j u r (revoke_all-active s.engine rec.id id u found on.0).0
        (ground (arith, lookup-delete rec.id j s.vault.records)) on;
  matched = λ j r q there found.
      g.matched j r q (ground (arith, lookup-delete rec.id j s.vault.records))
        (ground (arith, lookup-delete rec.id j s.library.reaches));
}

unlinked-gone :
    (s : Server) (uid account_id : Text) (rec : Account)
    → rec.id ≡ account_id
    → let t = unlinked s uid rec in
      (lookup account_id t.vault.records ≡ none)
      × (lookup account_id t.vault.blobs ≡ none)
      × (lookup account_id t.library.reaches ≡ none)
      × ((id : Text) (u : Session)
          → lookup id t.engine.sessions ≡ some u
          → is_active u ≡ true
          → u.context.account_id ≢ account_id)
unfolding remove remove_reach
unlinked-gone s uid account_id rec own = (
  ground (arith, own, lookup-delete rec.id account_id s.vault.records),
  ground (arith, own, lookup-delete rec.id account_id s.vault.blobs),
  ground (arith, own, lookup-delete rec.id account_id s.library.reaches),
  λ id u found a e.
      let (there, away) = revoke_all-active s.engine rec.id id u found a in
      absurd (ground (arith, own, away, e)),
)

-- RemoveAccount, whether it succeeds or not, keeps a server guarded: records in form, active sessions
-- only of users who may use the account, reaches with the records' audiences. When it succeeds on such
-- a server, the account has no record, no vaulted session, no reach, and no active session.
pub remove_account-IsGuarded :
    (s : Server) (uid account_id : Text)
    → IsGuarded s
    → let (t, result) = remove_account s uid account_id in
      IsGuarded t
      × (result ≡ none
          → (lookup account_id t.vault.records ≡ none)
            × (lookup account_id t.vault.blobs ≡ none)
            × (lookup account_id t.library.reaches ≡ none)
            × ((id : Text) (u : Session)
                → lookup id t.engine.sessions ≡ some u
                → is_active u ≡ true
                → u.context.account_id ≢ account_id))
unfolding remove_account
remove_account-IsGuarded s uid account_id g = elim (Bool-cases (blank account_id)) [
  | inl empty ↦ rw (remove_account, empty) (g, λ h. absurd (ground arith))
  | inr named ↦ elim (Option-cases (get s.vault account_id)) [
    | inl gone ↦ rw (remove_account, named, gone) (g, λ h. absurd (ground arith))
    | inr (rec, had) ↦ elim (Bool-cases (rec.owner_user_id == uid)) [
      | inr not_own ↦ rw (remove_account, named, had, not_own) (g, λ h. absurd (ground arith))
      | inl own ↦
          rw (remove_account, named, had, own)
            (
              unlinked-IsGuarded s uid rec g,
              λ h. unlinked-gone s uid account_id rec (g.canonical account_id rec had).0,
            )
    ]
  ]
]
