-- ===== src/Api/Handlers.antt =====
-- `UpdateAccount` and `RemoveAccount` of core/internal/apiserver/accounts.go on the account store, the
-- library and the delivery engine, all of which are armed. The store itself does not fail.
use abcmovies.Base.{
  ℕ, zero, suc, Bool, true, false, ◌&&◌, ◌||◌, not, List, [], ◌∷◌, ◌++◌, Text, text_key, ◌==◌, eqb,
  length, if◌then◌else◌, blank, Option, none, some, lookup, insert,
}
use abcmovies.Accounts.Record.{Account, Visibility, CapChangePolicy}
use abcmovies.Accounts.Store.{
  Vault, get, set_sharing, set_max_concurrent_streams, set_cap_change_policy, remove, kept,
}
use abcmovies.Library.Service.{Service, set_reach_sharing, remove_reach, reach_authorized}
use abcmovies.Delivery.Session.{Engine}
use abcmovies.Delivery.Start.{Wiring}
use abcmovies.Delivery.Ending.{revoke_all_on_account, revoke_others_on_account, apply_account_cap}
use abcmovies.Api.Requests.{
  Code, invalid_argument, permission_denied, not_found, internal, AccountSharing,
  UpdateAccountRequest, api_visibility, api_cap_change_policy, validate_update_account_request,
  validate_sharing, valid_cap_change_policy,
}

-- An event for the owner of an account whose session ended.
pub record SessionRevoked : Type 0 where
  pub user_id : Text
  pub account_id : Text
  pub provider : Text

pub record Server : Type 0 where
  pub vault : Vault
  pub library : Service
  pub engine : Engine
  pub events : List SessionRevoked

-- What the handlers are given: `strings.TrimSpace`, the users that exist, what the engine calls, and
-- the policy of the instance.
pub record Setting : Type 0 where
  pub trim : Text → Text
  pub user_directory : Option (Text → Option Bool)
  pub wiring : Wiring
  pub cap_change_default : CapChangePolicy

-- `counts[m]`
abbrev pub count_of : Text → List (Text × ℕ) → ℕ
count_of m counts = elim (lookup m counts) [ none ↦ 0 | some n ↦ n ]

unfoldable pub tally : List Text → List (Text × ℕ) → List (Text × ℕ)
tally [] counts = counts
tally (m ∷ ms) counts = tally ms (insert m (suc (count_of m counts)) counts)

-- No count falls below zero.
unfoldable pub draws_down : List Text → List (Text × ℕ) → Bool
draws_down [] counts = true
draws_down (m ∷ ms) counts = elim (count_of m counts) [
  | zero ↦ false
  | suc n ↦ draws_down ms (insert m n counts)
]

unfoldable pub same_members : List Text → List Text → Bool
same_members a b = if eqb (length a) (length b) then draws_down b (tally a []) else false

unfoldable pub same_visibility : Visibility → Visibility → Bool
same_visibility Visibility.unset Visibility.unset = true
same_visibility Visibility.private Visibility.private = true
same_visibility Visibility.shared Visibility.shared = true
same_visibility Visibility.public Visibility.public = true
same_visibility (Visibility.other v) (Visibility.other w) = v == w
same_visibility v w = false

abbrev pub sharing_stage : Setting → Account → Option AccountSharing → Vault → Option Vault
sharing_stage y old none v = some v
sharing_stage y old (some sh) v =
    set_sharing y.trim v old.id (api_visibility sh.visibility) sh.shared_with

abbrev pub max_stage : Account → Option ℕ → Vault → Option Vault
max_stage old none v = some v
max_stage old (some n) v = set_max_concurrent_streams v old.id n

abbrev pub policy_stage : Account → Option ℕ → Vault → Option Vault
policy_stage old none v = some v
policy_stage old (some p) v = set_cap_change_policy v old.id (api_cap_change_policy p)

-- The earlier sharing is put back.
abbrev pub restore : Setting → Account → Vault → Vault
restore y old v = kept v (set_sharing y.trim v old.id old.visibility old.shared_with)

abbrev restore_max : Account → Vault → Vault
restore_max old v = kept v (set_max_concurrent_streams v old.id old.max_concurrent_streams)

-- The three writes, each of which is taken back if a later one fails.
unfoldable pub write_settings :
    Setting → Account → UpdateAccountRequest → Vault → Vault × Option Code
write_settings y old req v = elim (sharing_stage y old req.sharing v) [
  | none ↦ (v, some internal)
  | some v1 ↦ elim (max_stage old req.max_concurrent_streams v1) [
    | none ↦ (restore y old v1, some internal)
    | some v2 ↦ elim (policy_stage old req.cap_change_policy v2) [
      | none ↦ (restore_max old (restore y old v2), some internal)
      | some v3 ↦ (v3, none)
    ]
  ]
]

abbrev edits : Option AccountSharing → Bool
edits none = false
edits (some sh) = true

abbrev pub sharing_edited : Account → Account → UpdateAccountRequest → Bool
sharing_edited old rec req =
    edits req.sharing
    && (not (same_visibility rec.visibility old.visibility)
        || not (same_members old.shared_with rec.shared_with))

abbrev pub swap : Account → Bool → Service → Option Service
swap rec true library = set_reach_sharing library rec.id rec.visibility rec.shared_with
swap rec false library = some library

abbrev pub enforce_now : Setting → Account → Bool
enforce_now y rec = elim rec.cap_change_policy [
  | CapChangePolicy.enforce_now ↦ true
  | CapChangePolicy.inherited ↦ elim y.cap_change_default [
    | CapChangePolicy.enforce_now ↦ true
    | _ ↦ false
  ]
  | _ ↦ false
]

-- The members that lost the account are cut off.
abbrev pub cut_off : Account → Bool → Engine → Engine
cut_off rec edited e =
    if edited && not (same_visibility rec.visibility Visibility.public)
    then (revoke_others_on_account e rec.provider rec.id (rec.owner_user_id ∷ rec.shared_with)).0
    else e

abbrev pub cap_live : Setting → Account → Option ℕ → Engine → Engine
cap_live y rec none e = e
cap_live y rec (some n) e = (apply_account_cap e y.wiring rec.provider rec.id (enforce_now y rec)).0

-- What follows the writes, with the record as it is read again.
unfoldable pub go_live :
    Setting → Server → Account → UpdateAccountRequest → Option Account → Server × Option Code
go_live y s old req none = (s, some internal)
go_live y s old req (some rec) =
    let edited = sharing_edited old rec req in
    elim (swap rec edited s.library) [
      | none ↦ (record s { vault = restore y old s.vault }, some internal)
      | some library ↦ (
        record s {
          library = library;
          engine = cap_live y rec req.max_concurrent_streams (cut_off rec edited s.engine);
        },
        none,
      )
    ]

abbrev pub written :
    Setting → Server → Account → UpdateAccountRequest → Vault × Option Code → Server × Option Code
written y s old req (v, some c) = (record s { vault = v }, some c)
written y s old req (v, none) = go_live y (record s { vault = v }) old req (get v old.id)

abbrev check_sharing : Setting → Option AccountSharing → Option Code
check_sharing y none = none
check_sharing y (some sh) =
    validate_sharing y.user_directory (api_visibility sh.visibility) sh.shared_with

abbrev check_policy : Option ℕ → Option Code
check_policy none = none
check_policy (some p) = if valid_cap_change_policy p then none else some invalid_argument

-- An account that the caller reaches but that has no record is the operator's.
abbrev missing : Server → Text → Text → Code
missing s uid account_id =
    if (reach_authorized s.library account_id uid).1 then permission_denied else not_found

-- `UpdateAccount` by a caller; `none` is success.
unfoldable pub update_account :
    Setting → Server → Text → UpdateAccountRequest → Server × Option Code
update_account y s uid req = elim (validate_update_account_request req) [
  | false ↦ (s, some invalid_argument)
  | true ↦ elim (get s.vault req.account_id) [
    | none ↦ (s, some (missing s uid req.account_id))
    | some rec ↦ elim (rec.owner_user_id == uid) [
      | false ↦ (s, some permission_denied)
      | true ↦ elim (check_sharing y req.sharing) [
        | some c ↦ (s, some c)
        | none ↦ elim (check_policy req.cap_change_policy) [
          | some c ↦ (s, some c)
          | none ↦ written y s rec req (write_settings y rec req s.vault)
        ]
      ]
    ]
  ]
]

abbrev pub unlinked : Server → Text → Account → Server
unlinked s uid rec = record {
  vault = remove s.vault rec.id;
  library = remove_reach s.library rec.id;
  engine = (revoke_all_on_account s.engine rec.id).0;
  events =
      s.events ++ (record { user_id = uid; account_id = rec.id; provider = rec.provider } ∷ []);
}

-- `RemoveAccount`. The running slot's own cleanup is not part of the state.
unfoldable pub remove_account : Server → Text → Text → Server × Option Code
remove_account s uid account_id = elim (blank account_id) [
  | true ↦ (s, some invalid_argument)
  | false ↦ elim (get s.vault account_id) [
    | none ↦ (s, some (missing s uid account_id))
    | some rec ↦ elim (rec.owner_user_id == uid) [
      | false ↦ (s, some permission_denied)
      | true ↦ (unlinked s uid rec, none)
    ]
  ]
]
