-- ===== src/Policy/Validation.antt =====
-- What `ParseInstance` accepts, and what a set that it returns promises to the delivery engine.
use Prim.Native.Nat.{min}
use abcmovies.Base.{
  ℕ, ◌≤◌, ◌≡◌, refl, ap, ◌∙◌, ◌≢◌, inl, inr, Bool, true, false, Option, none, some, List, [], ◌∷◌,
  Text, text, lookup, lookup-insert, text_key, arith, Text-discrete, Option-cases, In, All, ◌↔◌,
}
use abcmovies.Base.Int.{ℤ, pos, negsuc}
use abcmovies.Policy.Key
use abcmovies.Policy.Atoi.{Parse, parsed, syntax, range, atoi, number_of}
use abcmovies.Policy.Limits.{
  Set, Formats, defaults, with_overlay, streams, effective_account_limit, positive_int, accepts,
  validate, parse_instance,
}

abbrev pub recognised_keys : List Text
recognised_keys =
    Key.concurrent_streams ∷ Key.bandwidth ∷ Key.encode ∷ Key.time_window ∷ Key.member_monthly_quota
    ∷ Key.pacing_requests_per_sec ∷ Key.pacing_max_pulls ∷ Key.pacing_delay ∷ Key.pacing_retries
    ∷ []

-- An overlay's pair wins over the set below it.
pub lookup-with_overlay :
    (s o : Set) (j : Text)
    → lookup j (with_overlay s o) ≡ elim (lookup j o) [ none ↦ lookup j s | some v ↦ some v ]
unfolding with_overlay lookup
lookup-with_overlay s [] j = refl
lookup-with_overlay s ((k, v) ∷ o) j =
    ground (arith, lookup-insert k j v (with_overlay s o), lookup-with_overlay s o j)

streams_of :
    (s : Set) (v : Text)
    → lookup Key.concurrent_streams s ≡ some v
    → streams s ≡ (number_of (atoi v), true)
unfolding streams
streams_of s v e = rw (e, streams)

default_streams : lookup Key.concurrent_streams defaults ≡ some (text "3")
unfolding lookup Text-discrete
default_streams = refl

three : ◌≡◌ {A = ℤ × Bool} (number_of (atoi (text "3")), true) (pos 3, true)
unfolding atoi
three = refl

module _ (formats : Formats) where
  -- The keys that have a case are the recognised ones.
  accepts-recognised : (k v : Text) → accepts formats k v ≢ none → In k recognised_keys
  unfolding accepts
  accepts-recognised k v h = ground arith

  accepts-streams :
      (v : Text) → accepts formats Key.concurrent_streams v ≡ some (positive_int (atoi v))
  unfolding accepts
  accepts-streams v = ground arith

  validate-All :
      (raw : Set) → validate formats raw ≡ none → All (λ p. accepts formats p.0 p.1 ≡ some true) raw
  unfolding validate
  validate-All [] h = tt
  validate-All ((k, v) ∷ raw) h = ground (arith, validate-All raw)

  All-validate :
      (raw : Set) → All (λ p. accepts formats p.0 p.1 ≡ some true) raw → validate formats raw ≡ none
  unfolding validate
  All-validate [] h = refl
  All-validate ((k, v) ∷ raw) h = ground (arith, All-validate raw h.1)

  All-lookup :
      (raw : Set) (k v : Text)
      → All (λ p. accepts formats p.0 p.1 ≡ some true) raw
      → lookup k raw ≡ some v
      → accepts formats k v ≡ some true
  unfolding lookup
  All-lookup [] k v h e = cc
  All-lookup ((j, w) ∷ raw) k v h e = ground (arith, All-lookup raw k v h.1)

  All-recognised :
      (raw : Set)
      → All (λ p. accepts formats p.0 p.1 ≡ some true) raw
      → All (λ p. In p.0 recognised_keys) raw
  All-recognised [] h = tt
  All-recognised ((k, v) ∷ raw) h =
      (accepts-recognised k v (λ e. ground (arith, h.0)), All-recognised raw h.1)

  -- An instance policy is accepted exactly when the case of its key accepts each of its pairs, and
  -- what is returned is then the shipped defaults with those pairs written over them.
  pub parse_instance_iff :
      (raw : Set)
      → All (λ p. accepts formats p.0 p.1 ≡ some true) raw
        ↔ (parse_instance formats raw ≡ inr (with_overlay defaults raw))
  unfolding parse_instance
  parse_instance_iff raw =
      (λ h. ground (arith, All-validate raw h), λ e. validate-All raw (ground arith))

  -- No unknown limit type passes: every key of a set that is accepted is one of the nine.
  pub parse_instance-recognised :
      (raw s : Set) → parse_instance formats raw ≡ inr s → All (λ p. In p.0 recognised_keys) raw
  unfolding parse_instance
  parse_instance-recognised raw s e = All-recognised raw (validate-All raw (ground arith))

  positive_int_inv : (p : Parse) → positive_int p ≡ true → (n : ℕ) × (number_of p ≡ pos n) × (1 ≤ n)
  unfolding positive_int
  positive_int_inv (parsed (pos n)) h = (n, refl, ground arith)
  positive_int_inv (parsed (negsuc n)) h = cc
  positive_int_inv syntax h = cc
  positive_int_inv (range z) h = cc

  declared :
      (raw : Set) (v : Text)
      → validate formats raw ≡ none
      → lookup Key.concurrent_streams raw ≡ some v
      → positive_int (atoi v) ≡ true
  declared raw v h e =
      ground
        (arith, All-lookup raw Key.concurrent_streams v (validate-All raw h) e, accepts-streams v)

  overlay_streams :
      (raw : Set)
      → validate formats raw ≡ none
      → (n : ℕ) × (streams (with_overlay defaults raw) ≡ (pos n, true)) × (1 ≤ n)
  overlay_streams raw h = elim (Option-cases (lookup Key.concurrent_streams raw)) [
    | inl absent ↦ (
      3,
      streams_of _ (text "3") (lookup-with_overlay defaults raw _ ∙ rw absent default_streams)
          ∙ three,
      omega arith,
    )
    | inr (v, found) ↦
        let (n, e, p) = positive_int_inv (atoi v) (declared raw v h found) in
        (n, streams_of _ v (rw (lookup-with_overlay, found)) ∙ ap (λ z. (z, true)) e, p)
  ]

  -- A validated instance policy always declares a positive concurrent-stream limit.
  pub streams-parse_instance :
      (raw s : Set)
      → parse_instance formats raw ≡ inr s
      → (n : ℕ) × (streams s ≡ (pos n, true)) × (1 ≤ n)
  unfolding parse_instance
  streams-parse_instance raw s h = elim (Option-cases (validate formats raw)) [
    | inl fine ↦
        let same : s ≡ with_overlay defaults raw = ground arith in
        rw same (overlay_streams raw fine)
    | inr (e, bad) ↦ absurd (ground arith)
  ]

-- What a declared limit and a declared cap allow together; `none` is no declaration.
abbrev pub lesser : Option ℕ → Option ℕ → ℕ
lesser (some m) (some n) = min m n
lesser (some m) none = m
lesser none (some n) = n
lesser none none = 0

-- The limit that a set declares, where it is no negative number.
abbrev pub Declares : Set → Option ℕ → Type 0
Declares s none = streams s ≡ (pos 0, false)
Declares s (some n) = streams s ≡ (pos n, true)

-- The effective limit of an account is the lesser of the limit that its policy declares and the cap
-- that its provider declares, the one that is declared if only one is, and 0 if neither is.
pub effective_account_limit_lem :
    (account_policy provider_cap : Set) (limit cap_limit : Option ℕ)
    → Declares account_policy limit
    → Declares provider_cap cap_limit
    → effective_account_limit account_policy provider_cap ≡ pos (lesser limit cap_limit)
unfolding effective_account_limit
effective_account_limit_lem a c (some m) (some n) p q = rw (p, q) (ground arith)
effective_account_limit_lem a c (some m) none p q = rw (p, q)
effective_account_limit_lem a c none (some n) p q = rw (p, q)
effective_account_limit_lem a c none none p q = rw (p, q)
