-- ===== src/Auth/Validity.antt =====
-- core/internal/auth/session.go: whom a token speaks for.
use abcmovies.Base.{
  ℕ, ◌+◌, ◌-◌, ◌%◌, ◌≡◌, refl, ap, ◌∙◌, Bool, true, false, [], ◌∷◌, ◌++◌, Text, eqb, ltb, blank,
  if◌then◌else◌, some, text_key, lookup, lookup-insert, Option-cases, Bool-cases, inl, inr, arith,
}
use abcmovies.MetadataCache.Cache.{cut}
use abcmovies.Auth.Sessions.{
  Encoding, SessionHandler, refused, user, token_expired, newline, session_key, session_value, mint,
  split_entry, drop_session, check_expiry, check_entry, validate_session,
}

-- What RFC 3339 promises of a time that it can write: the text is not empty, and it reads back as the
-- time, down to the second.
pub record IsWritten (enc : Encoding) (t : ℕ) : Type 0 where
  pub whole_second : enc.parse (enc.format t) ≡ some (t - t % 1000000000)
  pub written : blank (enc.format t) ≡ false

-- A text without a newline.
abbrev pub one_line : Text → Bool
one_line [] = true
one_line (c ∷ cs) = if eqb c newline then false else one_line cs

cut-one_line :
    (u rest : Text) → one_line u ≡ true → cut newline (u ++ (newline ∷ rest)) ≡ some (u, rest)
unfolding cut
cut-one_line [] rest h = refl
cut-one_line (c ∷ cs) rest h = ground (arith, cut-one_line cs rest)

-- What stands before the first newline has none.
cut-before : (t before after : Text) → cut newline t ≡ some (before, after) → one_line before ≡ true
unfolding cut
cut-before [] before after e = absurd (ground arith)
cut-before (c ∷ cs) before after e = elim (Bool-cases (eqb c newline)) [
  | inl here ↦ let first : before ≡ [] = ground (arith, here) in ap one_line first
  | inr on ↦ elim (Option-cases (cut newline cs)) [
    | inl none_there ↦ absurd (ground (arith, on, none_there))
    | inr ((b, a), there) ↦
        let first : before ≡ c ∷ b = ground (arith, on, there) in
        ap one_line first ∙ ground (arith, on, cut-before cs b a there)
  ]
]

module _ (enc : Encoding) where
  split_entry-session_value :
      (user_id : Text) (expiry : ℕ)
      → one_line user_id ≡ true
      → split_entry enc (session_value enc user_id expiry) ≡ (user_id, enc.format expiry)
  unfolding split_entry session_value
  split_entry-session_value user_id expiry line =
      ground (arith, cut-one_line user_id (enc.format expiry) line)

  lookup-mint :
      (s : SessionHandler) (user_id random : Text) (now : ℕ)
      → lookup (session_key enc (enc.hex random)) (mint enc s user_id random now).0.tokens
        ≡ some (session_value enc user_id (now + s.ttl))
  unfolding mint
  lookup-mint s user_id random now =
      let key = session_key enc (enc.hex random) in
      ground (arith, lookup-insert key key (session_value enc user_id (now + s.ttl)) s.tokens)

  validate_session-found :
      (s : SessionHandler) (token value : Text) (now : ℕ)
      → lookup (session_key enc token) s.tokens ≡ some value
      → validate_session enc s token now ≡ check_entry enc s token now (split_entry enc value)
  unfolding validate_session
  validate_session-found s token value now e = rw (validate_session, e) refl

  check_entry-written :
      (s : SessionHandler) (token user_id : Text) (expiry now : ℕ)
      → IsWritten enc expiry
      → blank user_id ≡ false
      → check_entry enc s token now (user_id, enc.format expiry) ≡ (
          if ltb (expiry - expiry % 1000000000) now
          then (drop_session enc s token, refused token_expired)
          else (s, user user_id))
  unfolding check_entry check_expiry
  check_entry-written s token user_id expiry now f named =
      rw (named, f.written, f.whole_second) refl

  -- A token that is minted for a user whose id is not empty and has no newline, with an expiry that
  -- RFC 3339 can write, validates as that user up to the second of its expiry; after it, it is
  -- refused as expired and dropped.
  pub mint-validate_session :
      (s : SessionHandler) (user_id random : Text) (now later : ℕ)
      → IsWritten enc (now + s.ttl)
      → blank user_id ≡ false
      → one_line user_id ≡ true
      → let expiry = now + s.ttl in
        let (after, token) = mint enc s user_id random now in
        validate_session enc after token later ≡ (
          if ltb (expiry - expiry % 1000000000) later
          then (drop_session enc after token, refused token_expired)
          else (after, user user_id))
  unfolding mint
  mint-validate_session s user_id random now later f named line =
      let token = enc.hex random in
      let expiry = now + s.ttl in
      let (after, minted) = mint enc s user_id random now in
      let found : lookup (session_key enc minted) after.tokens
          ≡ some (session_value enc user_id expiry) =
        ground (arith, lookup-mint s user_id random now) in
      validate_session-found after minted (session_value enc user_id expiry) later found
      ∙ ap (check_entry enc after minted later) (split_entry-session_value user_id expiry line)
      ∙ check_entry-written after minted user_id expiry later f named

  split_entry-user : (value : Text) → one_line (split_entry enc value).0 ≡ true
  unfolding split_entry
  split_entry-user value = elim (Option-cases (cut newline value)) [
    | inl e ↦ ground (arith, e)
    | inr ((before, after), e) ↦ ground (arith, e, cut-before value before after e)
  ]

  check_entry-user :
      (s : SessionHandler) (token : Text) (now : ℕ) (entry : Text × Text) (u : Text)
      → (check_entry enc s token now entry).1 ≡ user u
      → u ≡ entry.0
  unfolding check_entry check_expiry
  check_entry-user s token now (user_id, expiry) u e = elim (Option-cases (enc.parse expiry)) [
    | inl p ↦ absurd (ground (arith, p))
    | inr (t, p) ↦ ground (arith, p)
  ]

  -- No token ever validates as a user whose id holds a newline.
  pub validate_session-one_line :
      (s : SessionHandler) (token u : Text) (now : ℕ)
      → (validate_session enc s token now).1 ≡ user u
      → one_line u ≡ true
  unfolding validate_session
  validate_session-one_line s token u now e =
      elim (Option-cases (lookup (session_key enc token) s.tokens)) [
        | inl n ↦ absurd (ground (arith, n))
        | inr (value, there) ↦
            let checked : (check_entry enc s token now (split_entry enc value)).1 ≡ user u =
              ground (arith, there) in
            ap one_line (check_entry-user s token now (split_entry enc value) u checked)
            ∙ split_entry-user value
      ]
