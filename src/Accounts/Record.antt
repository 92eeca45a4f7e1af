-- ===== src/Accounts/Record.antt =====
-- The record of a linked account in core/internal/accounts/accounts.go. Go's string types have a
-- constructor for each named constant and one for every other string.
use abcmovies.Base.{
  ℕ, Bool, true, false, List, [], ◌∷◌, Text, text, if◌then◌else◌, blank, contains, sort_strings,
}

pub data Visibility : Type 0 where
  unset private shared public : Visibility
  other : Text → Visibility

pub data CapChangePolicy : Type 0 where
  inherited new_sessions_only enforce_now : CapChangePolicy
  other : Text → CapChangePolicy

unfoldable pub valid_policy : CapChangePolicy → Bool
valid_policy (CapChangePolicy.other p) = false
valid_policy p = true

abbrev pub status_linked : Text
status_linked = text "linked"

abbrev pub status_expired : Text
status_expired = text "expired"

pub record Account : Type 0 where
  pub id : Text
  pub provider : Text
  pub base_url : Text
  pub username : Text
  pub owner_user_id : Text
  pub status : Text
  pub visibility : Visibility
  pub shared_with : List Text
  pub max_concurrent_streams : ℕ
  pub cap_change_policy : CapChangePolicy
  -- 0 is the zero time
  pub created_at : ℕ

-- The loop of `canonUsers`; `trim` is `strings.TrimSpace`.
unfoldable pub canon_loop : (Text → Text) → List Text → List Text → List Text
canon_loop trim seen [] = []
canon_loop trim seen (user ∷ users) =
    let u = trim user in
    let skip = if blank u then true else contains seen u in
    let rest = canon_loop trim (if skip then seen else u ∷ seen) users in
    if skip then rest else u ∷ rest

unfoldable pub canon_users : (Text → Text) → List Text → List Text
canon_users trim users = sort_strings (canon_loop trim [] users)
