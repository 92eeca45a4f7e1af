-- ===== src/Library/Coherence.antt =====
-- The cached libraries of core/internal/library/library.go against the derivation.
use abcmovies.Base.{
  ℕ, ◌≡◌, refl, ap, ◌∙◌, subst, Bool, false, not, ◌||◌, List, [], ◌∷◌, Text, ◌==◌, some, none,
  lookup, insert, select_pairs, text_key, arith, if◌then◌else◌, ◌⊎◌, inl, inr, In, any,
  Option-cases, ◌≢◌, lookup-insert, Text-discrete,
}
use abcmovies.Accounts.Record.{Visibility}
use abcmovies.Library.Reach.{Reach, authorized, derivable}
use abcmovies.Library.Derive.{LibraryEntry, Sources, no_draft, derive}
use abcmovies.Library.Service.{
  Service, sweep_user_caches, shared, set_reach_sharing, carriers, invalidate, invalidate_account,
  rebuild_user, library,
}
use abcmovies.Library.Changes.{OnlyAccount, build_reaches-alike}
use abcmovies.Library.Audience.{Alike, derivable-AllAlike, derivable-carriers}

-- Every cached library is what a derivation gives now.
abbrev pub IsCoherent : Service → Sources → Type 0
IsCoherent s w =
    (user : Text) (entries : List LibraryEntry)
    → lookup user s.libraries ≡ some entries
    → (at : ℕ) × (derive w s.reaches user at ≡ some entries)

lookup-swept :
    (user : Text) (p : Text → Bool) (m : List (Text × List LibraryEntry))
    → lookup user (select_pairs (λ u _. not (p u)) m) ≡ (if p user then none else lookup user m)
unfolding lookup select_pairs
lookup-swept user p [] = ground arith
lookup-swept user p ((u, v) ∷ m) = elim (Text-discrete u user) [
  | yes e ↦ ground (arith, e, ap p e, lookup-swept user p m)
  | no other ↦ ground (arith, other, lookup-swept user p m)
]

sweep-unswept :
    (user : Text) (p : Text → Bool) (s : Service) (entries : List LibraryEntry)
    → lookup user (sweep_user_caches p s).libraries ≡ some entries
    → (p user ≡ false) × (lookup user s.libraries ≡ some entries)
unfolding sweep_user_caches
sweep-unswept user p s entries h = ground (arith, lookup-swept user p s.libraries)

unshared-Alike :
    (user : Text) (r s : Reach)
    → r.account_id ≡ s.account_id
    → (authorized r user || authorized s user) ≡ false
    → Alike user r s
unshared-Alike user r s e h = record {
  same_account = e;
  same_answer = ground arith;
  same_use = λ u. ground arith;
}

derive-cong :
    (w : Sources) (reaches reaches' : List (Text × Reach)) (user : Text) (at : ℕ)
    → derivable reaches' user ≡ derivable reaches user
    → derive w reaches' user at ≡ derive w reaches user at
unfolding derive
derive-cong w reaches reaches' user at e = rw (derive, e) refl

reshared-IsCoherent :
    (s : Service) (w : Sources) (account_id : Text) (before r : Reach)
    → lookup account_id s.reaches ≡ some before
    → before.account_id ≡ r.account_id
    → IsCoherent s w
    → IsCoherent
        (sweep_user_caches
          (λ user. authorized before user || authorized r user)
          (record s { reaches = insert account_id r s.reaches }))
        w
unfolding sweep_user_caches
reshared-IsCoherent s w account_id before r there same c user entries found =
    let (unseen, cached) =
      sweep-unswept user (λ u. authorized before u || authorized r u)
        (record s { reaches = insert account_id r s.reaches }) entries found in
    let (at, d) = c user entries cached in
    let e =
      derivable-AllAlike user account_id before r s.reaches there
        (unshared-Alike user before r same unseen) in
    (at, derive-cong w s.reaches (insert account_id r s.reaches) user at e ∙ d)

pub set_reach_sharing-IsCoherent :
    (s s' : Service) (w : Sources) (account_id : Text) (v : Visibility) (members : List Text)
    → set_reach_sharing s account_id v members ≡ some s'
    → IsCoherent s w
    → IsCoherent s' w
unfolding set_reach_sharing
set_reach_sharing-IsCoherent s s' w account_id v members h c =
    elim (Option-cases (lookup account_id s.reaches)) [
      | inl gone ↦ absurd (ground (arith, gone))
      | inr (before, there) ↦
          let r = shared before v members in
          let e : sweep_user_caches (λ user. authorized before user || authorized r user)
                (record s { reaches = insert account_id r s.reaches })
              ≡ s' =
            ground (arith, there) in
          subst (λ t. IsCoherent t w) e (reshared-IsCoherent s w account_id before r there refl c)
    ]

elsewhere :
    (s : Service) (user provider account_id : Text) (r : Reach)
    → In r (derivable s.reaches user)
    → any (λ c. authorized c user) (carriers provider account_id s.reaches) ≡ false
    → (r.provider ≢ provider) ⊎ (r.account_id ≢ account_id)
elsewhere s user provider account_id r i unused = elim (Text-discrete r.provider provider) [
  | no other ↦ inl other
  | yes p ↦ elim (Text-discrete r.account_id account_id) [
    | no other ↦ inr other
    | yes a ↦ absurd (ground (arith, derivable-carriers user provider account_id r s.reaches i p a))
  ]
]

derive-alike :
    (s : Service) (w w' : Sources) (provider account_id user : Text) (at : ℕ)
    → OnlyAccount provider account_id w w'
    → any (λ c. authorized c user) (carriers provider account_id s.reaches) ≡ false
    → derive w' s.reaches user at ≡ derive w s.reaches user at
unfolding derive
derive-alike s w w' provider account_id user at only unused =
    let e = build_reaches-alike w w' at (derivable s.reaches user) no_draft (λ r i.
      let apart = elsewhere s user provider account_id r i unused in
      (
        only.rows r.provider r.account_id apart,
        λ item j. only.alike r.provider r.account_id item apart j,
      )) in
    ground (arith, e)

-- A library that outlives an invalidation is of a user whom no carrier serves.
invalidate-unused :
    (s : Service) (user : Text) (entries : List LibraryEntry) (l : List Reach)
    → lookup user (invalidate l s).libraries ≡ some entries
    → (any (λ c. authorized c user) l ≡ false)
      × (lookup user s.libraries ≡ some entries)
      × ((invalidate l s).reaches ≡ s.reaches)
unfolding invalidate sweep_user_caches lookup
invalidate-unused s user entries [] found = absurd (ground arith)
invalidate-unused s user entries (r ∷ rs) found =
    ground (arith, lookup-swept user (λ u. any (λ c. authorized c u) (r ∷ rs)) s.libraries)

pub invalidate_account-IsCoherent :
    (s : Service) (w w' : Sources) (provider account_id : Text)
    → OnlyAccount provider account_id w w'
    → IsCoherent s w
    → IsCoherent (invalidate_account s provider account_id) w'
unfolding invalidate_account
invalidate_account-IsCoherent s w w' provider account_id only c user entries found =
    let (unused, cached, same) =
      invalidate-unused s user entries (carriers provider account_id s.reaches) found in
    let (at, d) = c user entries cached in
    (at, rw same (derive-alike s w w' provider account_id user at only unused ∙ d))

rebuilt :
    (s : Service) (w : Sources) (user : Text) (now : ℕ) (derived : List LibraryEntry) (u : Text)
    (entries : List LibraryEntry)
    → derive w s.reaches user now ≡ some derived
    → (if user == u then some derived else lookup u s.libraries) ≡ some entries
    → IsCoherent s w
    → (at : ℕ) × (derive w s.reaches u at ≡ some entries)
rebuilt s w user now derived u entries done found c = elim (Text-discrete user u) [
  | yes e ↦ (now, ground (arith, e, ap (λ v. derive w s.reaches v now) e))
  | no other ↦ c u entries (ground (arith, other))
]

pub rebuild_user-IsCoherent :
    (s s' : Service) (w : Sources) (user : Text) (now : ℕ)
    → rebuild_user s w user now ≡ some s'
    → IsCoherent s w
    → IsCoherent s' w
unfolding rebuild_user
rebuild_user-IsCoherent s s' w user now h c u entries found =
    elim (Option-cases (derive w s.reaches user now)) [
      | inl failed ↦ absurd (ground (arith, failed))
      | inr (derived, done) ↦
          let same : s'.reaches ≡ s.reaches = ground (arith, done) in
          rw same (
            rebuilt s w user now derived u entries done
              (ground (arith, done, lookup-insert user u derived s.libraries)) c)
    ]

-- A sound answer is what a derivation gives at some time.
pub library-IsCoherent :
    (s s' : Service) (w : Sources) (user : Text) (now : ℕ) (entries : List LibraryEntry)
    → library s w user now ≡ some (s', entries)
    → IsCoherent s w
    → IsCoherent s' w × (lookup user s'.libraries ≡ some entries)
unfolding library
library-IsCoherent s s' w user now entries h c = elim (Option-cases (lookup user s.libraries)) [
  | inl missing ↦ elim (Option-cases (rebuild_user s w user now)) [
    | inl failed ↦ absurd (ground (arith, missing, failed))
    | inr (t, done) ↦
        let e : t ≡ s' = ground (arith, missing, done) in
        (
          subst (λ x. IsCoherent x w) e (rebuild_user-IsCoherent s t w user now done c),
          ground (arith, missing, done),
        )
  ]
  | inr (cached, there) ↦
      let e : s ≡ s' = ground (arith, there) in
      (subst (λ x. IsCoherent x w) e c, ground (arith, there))
]
