-- ===== src/Auth/Sessions.antt =====
-- core/internal/auth/session.go, over a token store that does not fail and the in-memory `DEKCache` of
-- core/internal/auth/store.go. Random bytes are an argument, and times are nanoseconds.
use abcmovies.Base.{
  ℕ, ◌+◌, ◌||◌, List, [], ◌∷◌, ◌++◌, Text, text, ltb, blank, if◌then◌else◌, Option, none, some,
  text_key, insert, delete, lookup,
}
use abcmovies.MetadataCache.Cache.{cut}

-- `hex.EncodeToString`, the hash of a token in hexadecimal digits, and RFC 3339 to and fro.
pub record Encoding : Type 0 where
  pub hex : Text → Text
  pub digest : Text → Text
  pub format : ℕ → Text
  pub parse : Text → Option ℕ

pub record SessionHandler : Type 0 where
  pub tokens : List (Text × Text)
  pub deks : List (Text × Text)
  pub ttl : ℕ

pub data SessionError : Type 0 where
  invalid_token : SessionError
  corrupted_entry : SessionError
  corrupted_expiry : SessionError
  token_expired : SessionError

pub data Validated : Type 0 where
  refused : SessionError → Validated
  user : Text → Validated

unfoldable pub new_session_handler : ℕ → SessionHandler
new_session_handler ttl = record { tokens = []; deks = []; ttl = ttl }

abbrev pub newline : ℕ
newline = 10

module _ (enc : Encoding) where
  unfoldable pub session_key : Text → Text
  session_key token = text "session:" ++ enc.digest token

  unfoldable pub dek_key : Text → Text
  dek_key token = text "dek:" ++ enc.digest token

  unfoldable pub session_value : Text → ℕ → Text
  session_value user_id expiry = user_id ++ (newline ∷ enc.format expiry)

  -- `Mint` with the random bytes that it draws.
  unfoldable pub mint : SessionHandler → Text → Text → ℕ → SessionHandler × Text
  mint s user_id random now =
      let token = enc.hex random in
      (
        record s {
          tokens = insert (session_key token) (session_value user_id (now + s.ttl)) s.tokens;
        },
        token,
      )

  -- The user and the expiry of an entry, empty where it has no newline.
  unfoldable pub split_entry : Text → Text × Text
  split_entry value = elim (cut newline value) [ none ↦ ([], []) | some parts ↦ parts ]

  -- An expired token goes together with its key.
  unfoldable pub drop_session : SessionHandler → Text → SessionHandler
  drop_session s token = record s {
    tokens = delete (session_key token) s.tokens;
    deks = delete (dek_key token) s.deks;
  }

  -- What follows the parsed entry.
  unfoldable pub check_expiry :
      SessionHandler → Text → ℕ → Text → Option ℕ → SessionHandler × Validated
  check_expiry s token now user_id none = (s, refused corrupted_expiry)
  check_expiry s token now user_id (some expiry) =
      if ltb expiry now then (drop_session s token, refused token_expired) else (s, user user_id)

  unfoldable pub check_entry : SessionHandler → Text → ℕ → Text × Text → SessionHandler × Validated
  check_entry s token now (user_id, expiry) =
      if blank user_id || blank expiry
      then (s, refused corrupted_entry)
      else check_expiry s token now user_id (enc.parse expiry)

  unfoldable pub validate_session : SessionHandler → Text → ℕ → SessionHandler × Validated
  validate_session s token now = elim (lookup (session_key token) s.tokens) [
    | none ↦ (s, refused invalid_token)
    | some value ↦ check_entry s token now (split_entry value)
  ]

  unfoldable pub revoke : SessionHandler → Text → SessionHandler
  revoke s token = drop_session s token

  unfoldable pub store_dek : SessionHandler → Text → Text → SessionHandler
  store_dek s token dek = record s { deks = insert (dek_key token) dek s.deks }

  unfoldable pub get_dek : SessionHandler → Text → Option Text
  get_dek s token = lookup (dek_key token) s.deks
