-- ===== src/Api/Requests.antt =====
-- The requests on linked accounts of core/internal/apiserver and their checks in
-- core/internal/schema/api.go. A wire enum is its number.
use abcmovies.Base.{
  ℕ, Bool, true, false, ◌&&◌, ◌||◌, not, List, [], ◌∷◌, Text, eqb, leb, if◌then◌else◌, blank,
  Option, none, some,
}
use abcmovies.Accounts.Record.{Visibility, CapChangePolicy}

pub data Code : Type 0 where
  invalid_argument permission_denied not_found unavailable unauthenticated internal : Code

-- `AccountSharing`
pub record AccountSharing : Type 0 where
  pub visibility : ℕ
  pub shared_with : List Text

pub record UpdateAccountRequest : Type 0 where
  pub account_id : Text
  pub sharing : Option AccountSharing
  pub max_concurrent_streams : Option ℕ
  pub cap_change_policy : Option ℕ

-- `apiVisibility`
unfoldable pub api_visibility : ℕ → Visibility
api_visibility v =
    if eqb v 2 then Visibility.shared else if eqb v 3 then Visibility.public else Visibility.private

unfoldable pub validate_account_sharing : AccountSharing → Bool
validate_account_sharing s =
    let empty : Bool = elim s.shared_with [ [] ↦ true | u ∷ us ↦ false ] in
    if eqb s.visibility 1 || eqb s.visibility 3
    then empty
    else if eqb s.visibility 2
    then not empty
    else false

abbrev is_some : {A : Type 0} → Option A → Bool
is_some none = false
is_some (some a) = true

-- The three policies of the wire.
unfoldable pub valid_cap_change_policy : ℕ → Bool
valid_cap_change_policy p = leb p 2

abbrev all_of : {A : Type 0} → (A → Bool) → Option A → Bool
all_of p none = true
all_of p (some a) = p a

unfoldable pub validate_update_account_request : UpdateAccountRequest → Bool
validate_update_account_request r =
    not (blank r.account_id)
    && (all_of validate_account_sharing r.sharing
        && ((is_some r.max_concurrent_streams || (is_some r.sharing || is_some r.cap_change_policy))
            && all_of valid_cap_change_policy r.cap_change_policy))

-- `apiCapChangePolicy`
unfoldable pub api_cap_change_policy : ℕ → CapChangePolicy
api_cap_change_policy p =
    if eqb p 1
    then CapChangePolicy.new_sessions_only
    else if eqb p 2
    then CapChangePolicy.enforce_now
    else CapChangePolicy.inherited

-- `checkMembers`: without a directory nothing is checked; a user may be there, or not, or the
-- question may fail.
unfoldable pub check_members : Option (Text → Option Bool) → List Text → Option Code
check_members none members = none
check_members (some has_user) [] = none
check_members (some has_user) (m ∷ ms) =
    let rest = check_members (some has_user) ms in
    elim (has_user m) [
      | none ↦ some internal
      | some false ↦ some invalid_argument
      | some true ↦ rest
    ]

-- `validateSharing`
unfoldable pub validate_sharing : Option (Text → Option Bool) → Visibility → List Text → Option Code
validate_sharing directory Visibility.private [] = none
validate_sharing directory Visibility.private (u ∷ us) = some invalid_argument
validate_sharing directory Visibility.public [] = none
validate_sharing directory Visibility.public (u ∷ us) = some invalid_argument
validate_sharing directory Visibility.shared [] = some invalid_argument
validate_sharing directory Visibility.shared (u ∷ us) = check_members directory (u ∷ us)
validate_sharing directory v members = some invalid_argument
