-- ===== src/Auth/Lifetime.antt =====
-- core/internal/auth/session.go: a token that was revoked.
use abcmovies.Base.{
  ℕ, ◌+◌, ◌≡◌, sym, subst, Bool, true, not, List, [], ◌∷◌, Text, ◌==◌, none, text_key, lookup,
  lookup-insert, lookup-delete, Option-cases, inl, inr, ◌⊎◌, arith, All,
}
use abcmovies.Auth.Sessions.{
  Encoding, SessionHandler, refused, invalid_token, session_key, dek_key, session_value, mint,
  split_entry, drop_session, check_expiry, check_entry, validate_session, revoke, store_dek,
  get_dek,
}

pub data SessionUse : Type 0 where
  mints : Text → Text → ℕ → SessionUse
  validates : Text → ℕ → SessionUse
  revokes : Text → SessionUse
  stores : Text → Text → SessionUse

module _ (enc : Encoding) where
  -- What is done with sessions.
  abbrev pub use_session : SessionHandler → SessionUse → SessionHandler
  use_session s (mints user_id random now) = (mint enc s user_id random now).0
  use_session s (validates token now) = (validate_session enc s token now).0
  use_session s (revokes token) = revoke enc s token
  use_session s (stores token dek) = store_dek enc s token dek

  unfoldable pub use_sessions : SessionHandler → List SessionUse → SessionHandler
  use_sessions s [] = s
  use_sessions s (u ∷ us) = use_sessions (use_session s u) us

  -- A use that neither mints a token of the same hash nor stores a key for one: sessions and keys are
  -- found by the hash alone.
  abbrev pub spares : Text → SessionUse → Bool
  spares token (mints user_id random now) = not (enc.digest (enc.hex random) == enc.digest token)
  spares token (validates other now) = true
  spares token (revokes other) = true
  spares token (stores other dek) = not (enc.digest other == enc.digest token)

  -- Neither the session nor its key is there.
  abbrev pub Gone : Text → SessionHandler → Type 0
  Gone token s = (lookup (session_key enc token) s.tokens ≡ none) × (get_dek enc s token ≡ none)

module _ (enc : Encoding) where
  Gone-drop_session :
      (s : SessionHandler) (token other : Text)
      → Gone enc token s
      → Gone enc token (drop_session enc s other)
  unfolding drop_session get_dek
  Gone-drop_session s token other g = ground (
    arith,
    lookup-delete (session_key enc other) (session_key enc token) s.tokens,
    lookup-delete (dek_key enc other) (dek_key enc token) s.deks,
  )

  check_entry-kept :
      (s : SessionHandler) (token : Text) (now : ℕ) (entry : Text × Text)
      → ((check_entry enc s token now entry).0 ≡ s)
        ⊎ ((check_entry enc s token now entry).0 ≡ drop_session enc s token)
  unfolding check_entry check_expiry
  check_entry-kept s token now (user_id, expiry) = elim (Option-cases (enc.parse expiry)) [
    | inl p ↦ ground (arith, p)
    | inr (t, p) ↦ ground (arith, p)
  ]

  Gone-check_entry :
      (s : SessionHandler) (token other : Text) (now : ℕ) (entry : Text × Text)
      → Gone enc token s
      → Gone enc token (check_entry enc s other now entry).0
  Gone-check_entry s token other now entry g = elim (check_entry-kept s other now entry) [
    | inl e ↦ subst (Gone enc token) (sym e) g
    | inr e ↦ subst (Gone enc token) (sym e) (Gone-drop_session s token other g)
  ]

  Gone-validate_session :
      (s : SessionHandler) (token other : Text) (now : ℕ)
      → Gone enc token s
      → Gone enc token (validate_session enc s other now).0
  unfolding validate_session
  Gone-validate_session s token other now g =
      elim (Option-cases (lookup (session_key enc other) s.tokens)) [
        | inl e ↦ rw (validate_session, e) g
        | inr (value, e) ↦
            rw (validate_session, e) (Gone-check_entry s token other now (split_entry enc value) g)
      ]

  session_key-digest :
      (a b : Text) → session_key enc a ≡ session_key enc b → enc.digest a ≡ enc.digest b
  unfolding session_key
  session_key-digest a b e = ground arith

  dek_key-digest : (a b : Text) → dek_key enc a ≡ dek_key enc b → enc.digest a ≡ enc.digest b
  unfolding dek_key
  dek_key-digest a b e = ground arith

  Gone-use_session :
      (s : SessionHandler) (token : Text) (u : SessionUse)
      → spares enc token u ≡ true
      → Gone enc token s
      → Gone enc token (use_session enc s u)
  unfolding revoke store_dek get_dek mint
  Gone-use_session s token (mints user_id random now) h g =
      let minted = enc.hex random in
      (
        ground (
          arith,
          session_key-digest minted token,
          lookup-insert (session_key enc minted) (session_key enc token)
              (session_value enc user_id (now + s.ttl)) s.tokens,
        ),
        g.1,
      )
  Gone-use_session s token (validates other now) h g = Gone-validate_session s token other now g
  Gone-use_session s token (revokes other) h g = Gone-drop_session s token other g
  Gone-use_session s token (stores other dek) h g = (
    g.0,
    ground (
      arith,
      dek_key-digest other token,
      lookup-insert (dek_key enc other) (dek_key enc token) dek s.deks,
    ),
  )

  Gone-use_sessions :
      (us : List SessionUse) (s : SessionHandler) (token : Text)
      → All (λ u. spares enc token u ≡ true) us
      → Gone enc token s
      → Gone enc token (use_sessions enc s us)
  unfolding use_sessions
  Gone-use_sessions [] s token h g = g
  Gone-use_sessions (u ∷ us) s token h g =
      Gone-use_sessions us (use_session enc s u) token h.1 (Gone-use_session s token u h.0 g)

  Gone-revoke : (s : SessionHandler) (token : Text) → Gone enc token (revoke enc s token)
  unfolding revoke drop_session get_dek
  Gone-revoke s token = ground (
    arith,
    lookup-delete (session_key enc token) (session_key enc token) s.tokens,
    lookup-delete (dek_key enc token) (dek_key enc token) s.deks,
  )

  -- A token that was revoked is refused as invalid and has no key, whatever is done with sessions
  -- afterwards, as long as no token of the same hash is minted and no key is stored for one.
  pub revoke-validate_session :
      (s : SessionHandler) (token : Text) (us : List SessionUse) (later : ℕ)
      → All (λ u. spares enc token u ≡ true) us
      → ((validate_session enc (use_sessions enc (revoke enc s token) us) token later).1
          ≡ refused invalid_token)
        × (get_dek enc (use_sessions enc (revoke enc s token) us) token ≡ none)
  unfolding validate_session
  revoke-validate_session s token us later h =
      let (gone, no_key) =
        Gone-use_sessions us (revoke enc s token) token h (Gone-revoke s token) in
      (ground (arith, gone), no_key)
