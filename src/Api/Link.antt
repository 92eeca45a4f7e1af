-- ===== src/Api/Link.antt =====
-- `LinkAccount` of core/internal/apiserver/accounts.go on the account store. What a live slot does with
-- a new account is the attacher's; the fresh id and the time are arguments.
use abcmovies.Base.{
  ℕ, Bool, true, false, not, ◌&&◌, List, [], ◌∷◌, Text, text_key, eqb, blank, Option, none, some,
  lookup,
}
use abcmovies.Accounts.Record.{Account, CapChangePolicy, status_linked}
use abcmovies.Accounts.Store.{Vault, add, save, remove}
use abcmovies.Api.Requests.{
  Code, invalid_argument, unavailable, unauthenticated, internal, api_visibility, validate_sharing,
}

pub record PasswordAuth : Type 0 where
  pub username : Text
  pub password : Text

pub record LinkAccountRequest : Type 0 where
  pub provider : Text
  pub base_url : Text
  pub password : Option PasswordAuth
  pub visibility : ℕ
  pub shared_with : List Text
  pub max_concurrent_streams : ℕ

-- The probe of a provider: the session of confirmed credentials.
abbrev pub Prober : Type 0
Prober = Text → Text → Text → Option Text

pub record Linking : Type 0 where
  pub trim : Text → Text
  -- `strings.TrimRight(url, "/")`
  pub trim_right : Text → Text
  pub user_directory : Option (Text → Option Bool)
  pub probers : List (Text × Prober)
  -- whether `AttachAccount` succeeds
  pub attacher : Option (Account → Bool)

abbrev complete_password : Option PasswordAuth → Bool
complete_password none = false
complete_password (some pw) = not (blank pw.username) && not (blank pw.password)

abbrev nobody : List Text → Bool
nobody [] = true
nobody (u ∷ us) = false

unfoldable pub validate_link_account_request : LinkAccountRequest → Bool
validate_link_account_request r =
    not (blank r.provider)
    && (not (blank r.base_url)
        && (complete_password r.password && not (eqb r.visibility 2 && nobody r.shared_with)))

-- The getters of a nil password read blank parts.
abbrev pub password_of : LinkAccountRequest → PasswordAuth
password_of r = elim r.password [ none ↦ record { username = []; password = [] } | some pw ↦ pw ]

abbrev pub new_account : Linking → Text → Text → LinkAccountRequest → Account
new_account y uid id r = record {
  id = id;
  provider = r.provider;
  base_url = y.trim_right r.base_url;
  username = (password_of r).username;
  owner_user_id = uid;
  status = status_linked;
  visibility = api_visibility r.visibility;
  shared_with = r.shared_with;
  max_concurrent_streams = r.max_concurrent_streams;
  cap_change_policy = CapChangePolicy.inherited;
  created_at = 0;
}

abbrev pub stamped : ℕ → Account → Account
stamped now rec = record rec { created_at = now }

-- A record that a live slot does not take is taken back.
unfoldable pub attach : Linking → Account → Vault → Vault × Option Code
attach y rec v = elim y.attacher [
  | none ↦ (v, none)
  | some f ↦ elim (f rec) [ true ↦ (v, none) | false ↦ (remove v rec.id, some internal) ]
]

unfoldable pub store_account : Linking → ℕ → Account → Text → Vault → Vault × Option Code
store_account y now rec blob v =
    let v' = save v rec.id blob in
    elim (add y.trim v' now rec) [
      | none ↦ (remove v' rec.id, some internal)
      | some v'' ↦ attach y rec v''
    ]

-- `LinkAccount` by a caller, with the fresh id; `none` is success.
unfoldable pub link_account :
    Linking → Vault → Text → Text → ℕ → LinkAccountRequest → Vault × Option Code
link_account y v uid id now r = elim (validate_link_account_request r) [
  | false ↦ (v, some invalid_argument)
  | true ↦ elim (lookup r.provider y.probers) [
    | none ↦ (v, some unavailable)
    | some probe ↦
        elim (validate_sharing y.user_directory (api_visibility r.visibility) r.shared_with) [
          | some c ↦ (v, some c)
          | none ↦
              elim (probe (y.trim_right r.base_url) (password_of r).username
                (password_of r).password) [
                  | none ↦ (v, some unauthenticated)
                  | some blob ↦ store_account y now (stamped now (new_account y uid id r)) blob v
                ]
        ]
  ]
]
