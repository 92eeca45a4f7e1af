-- ===== src/Api/Cutoff.antt =====
-- What the live part of core/internal/apiserver/accounts.go leaves of the sessions.
use abcmovies.Base.{
  ℕ, ◌≡◌, refl, ◌⊎◌, Bool, true, false, ◌&&◌, List, ◌∷◌, Text, text_key, if◌then◌else◌, contains,
  text, Option, none, some, lookup, lookup-map_values, arith, Option-cases, Bool-cases, inl, inr,
}
use abcmovies.Accounts.Record.{Account, Visibility}
use abcmovies.Delivery.Session.{Session, Engine, is_active}
use abcmovies.Delivery.Start.{Wiring, resolve_constraints}
use abcmovies.Delivery.Ending.{
  ended, end_where, end_indexed, loses_account, revoke_others_on_account, apply_account_cap,
  enforce_cap, cut, limit_under,
}
use abcmovies.Delivery.Revocation.{lookup-end_where}
use abcmovies.Api.Handlers.{Setting, same_visibility, enforce_now, cut_off, cap_live}

-- A user may use an account.
abbrev pub Allowed : Account → Text → Type 0
Allowed rec user =
    (rec.visibility ≡ Visibility.public)
    ⊎ (contains (rec.owner_user_id ∷ rec.shared_with) user ≡ true)

-- A session runs on an account.
abbrev pub RunsOn : Account → Session → Type 0
RunsOn rec u =
    (is_active u ≡ true) × (u.context.provider ≡ rec.provider) × (u.context.account_id ≡ rec.id)

-- Nothing becomes active.
abbrev Ends : Engine → Engine → Type 0
Ends e f =
    (id : Text) (u : Session)
    → lookup id f.sessions ≡ some u
    → is_active u ≡ true
    → lookup id e.sessions ≡ some u

Ends-trans : (e f g : Engine) → Ends e f → Ends f g → Ends e g
Ends-trans e f g h k id u found a = h id u (k id u found a) a

pub end_where-active :
    (p : Text → Session → Bool) (reason : Text) (e : Engine) (id : Text) (u : Session)
    → lookup id (end_where p reason e).sessions ≡ some u
    → is_active u ≡ true
    → (lookup id e.sessions ≡ some u) × (p id u ≡ false)
unfolding end_where
end_where-active p reason e id u h a = elim (Option-cases (lookup id e.sessions)) [
  | inl gone ↦ absurd (
      ground (
        arith,
        gone,
        lookup-map_values (λ id s. if p id s then ended reason s else s) id e.sessions,
      ))
  | inr (s, there) ↦ ground (arith, there, lookup-end_where p reason e id s there)
]

apply_account_cap-Ends :
    (e : Engine) (w : Wiring) (provider account_id : Text) (enforce : Bool)
    → Ends e (apply_account_cap e w provider account_id enforce).0
unfolding apply_account_cap enforce_cap end_indexed
apply_account_cap-Ends e w provider account_id enforce id u found a =
    elim (Option-cases (resolve_constraints w provider account_id)) [
      | inl none_given ↦ ground (arith, none_given)
      | inr (c, given) ↦ elim (Bool-cases enforce) [
        | inr later ↦ ground (arith, given, later)
        | inl now ↦
            (end_where-active
              (λ id s. contains (cut e provider account_id (limit_under e c)) id && is_active s)
              (text "stream limit lowered by the account owner") e id u (ground (arith, given, now))
              a).0
      ]
    ]

pub cap_live-Ends :
    (y : Setting) (rec : Account) (o : Option ℕ) (e : Engine) → Ends e (cap_live y rec o e)
cap_live-Ends y rec none e id u found a = found
cap_live-Ends y rec (some n) e id u found a =
    apply_account_cap-Ends e y.wiring rec.provider rec.id (enforce_now y rec) id u found a

revoke_others-active :
    (e : Engine) (rec : Account) (keep : List Text) (id : Text) (u : Session)
    → lookup id (revoke_others_on_account e rec.provider rec.id keep).0.sessions ≡ some u
    → is_active u ≡ true
    → (lookup id e.sessions ≡ some u) × (loses_account rec.provider rec.id keep u ≡ false)
unfolding revoke_others_on_account end_indexed
revoke_others-active e rec keep id u found a =
    end_where-active (λ _ s. loses_account rec.provider rec.id keep s)
      (text "account sharing narrowed") e id u found a

same_visibility-public :
    (v : Visibility) → same_visibility v Visibility.public ≡ true → v ≡ Visibility.public
unfolding same_visibility
same_visibility-public Visibility.public h = refl
same_visibility-public v h = absurd (ground arith)

-- Where the sharing was edited, the sessions that stay active on the account are of users who may
-- use it.
pub cut_off-active :
    (e : Engine) (rec : Account) (edited : Bool) (id : Text) (u : Session)
    → lookup id (cut_off rec edited e).sessions ≡ some u
    → is_active u ≡ true
    → (lookup id e.sessions ≡ some u)
      × (edited ≡ true → RunsOn rec u → Allowed rec u.context.member_user_id)
cut_off-active e rec false id u found a = (found, λ h. absurd (ground arith))
cut_off-active e rec true id u found a =
    elim (Bool-cases (same_visibility rec.visibility Visibility.public)) [
      | inl wide ↦ (ground (arith, wide), λ h on. inl (same_visibility-public rec.visibility wide))
      | inr closed ↦
          let (there, spared) =
            revoke_others-active e rec (rec.owner_user_id ∷ rec.shared_with) id u
              (ground (arith, closed)) a in
          (there, λ h on. inr (ground arith))
    ]
