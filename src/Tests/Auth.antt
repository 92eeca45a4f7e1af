-- ===== src/Tests/Auth.antt =====
-- Concrete sessions for the theorems on core/internal/auth.
use abcmovies.Base.{
  ℕ, ◌-◌, ◌%◌, ◌≡◌, refl, List, [], ◌∷◌, Text, text, Text-discrete, blank, lookup, insert, delete,
  Option, some, none,
}
use abcmovies.MetadataCache.Cache.{cut}
use abcmovies.Auth.Sessions.{
  Encoding, SessionHandler, user, refused, invalid_token, new_session_handler, session_key, dek_key,
  session_value, mint, split_entry, drop_session, check_entry, check_expiry, validate_session,
  revoke, store_dek, get_dek,
}
use abcmovies.Auth.Validity.{IsWritten, mint-validate_session}
use abcmovies.Auth.Lifetime.{SessionUse, mints, validates, use_sessions, revoke-validate_session}

program : Unit {0}
unfolding Text-discrete blank lookup insert delete cut new_session_handler session_key dek_key
    session_value mint split_entry drop_session check_entry check_expiry validate_session revoke
    store_dek get_dek use_sessions
program = tt

-- A time is written as a text of its one number.
abbrev read_time : Text → Option ℕ
read_time [] = none
read_time (t ∷ rest) = some (t - t % 1000000000)

-- A hash on which texts collide.
abbrev first_byte : Text → Text
first_byte [] = []
first_byte (t ∷ rest) = t ∷ []

abbrev plain : Encoding
plain = record { hex = λ t. t; digest = first_byte; format = λ t. t ∷ []; parse = read_time }

plain-IsWritten : (t : ℕ) → IsWritten plain t
unfolding blank
plain-IsWritten t = record { whole_second = refl; written = refl }

abbrev handler : SessionHandler
handler = record { tokens = []; deks = []; ttl = 5000000000 }

ann_validates :
    (validate_session plain
      (mint plain handler (text "ann") (text "t") 0).0
      (text "t")
      4000000000).1
    ≡ user (text "ann")
unfolding program
ann_validates = refl

mint-validate_session_example :
    validate_session plain (mint plain handler (text "ann") (text "t") 0).0 (text "t") 4000000000
    ≡ ((mint plain handler (text "ann") (text "t") 0).0, user (text "ann"))
unfolding program
mint-validate_session_example =
    mint-validate_session plain handler (text "ann") (text "t") 0 4000000000
      (plain-IsWritten 5000000000) refl refl

abbrev later_uses : List SessionUse
later_uses = mints (text "bob") (text "u") 3 ∷ validates (text "t") 4 ∷ []

revoke-validate_session_example :
    ((validate_session plain
        (use_sessions plain (revoke plain handler (text "t")) later_uses)
        (text "t")
        9).1
      ≡ refused invalid_token)
    × (get_dek plain (use_sessions plain (revoke plain handler (text "t")) later_uses) (text "t")
        ≡ none)
unfolding program
revoke-validate_session_example =
    revoke-validate_session plain handler (text "t") later_uses 9 (refl, (refl, tt))
