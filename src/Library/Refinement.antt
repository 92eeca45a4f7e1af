-- ===== src/Library/Refinement.antt =====
-- The service of core/internal/library/library.go as a state machine, against a library that is
-- derived anew for each call.
use abcmovies.Base.{
  ℕ, ◌≡◌, ap, ◌∙◌, List, [], Text, some, lookup, insert, lookup-insert, ◌++◌, inl, inr, text_key,
  arith, Option-cases,
}
use abcmovies.Accounts.Record.{Visibility}
use abcmovies.Library.Derive.{LibraryEntry, Sources, derive}
use abcmovies.Library.Service.{
  Service, unresolved, set_reach_sharing, invalidate_account, rebuild_user, library,
}
use abcmovies.Library.Changes.{OnlyAccount}
use abcmovies.Library.Coherence.{
  IsCoherent, set_reach_sharing-IsCoherent, invalidate_account-IsCoherent, rebuild_user-IsCoherent,
  library-IsCoherent,
}

pub record State : Type 0 where
  pub service : Service
  pub sources : Sources

-- One call; a change of an account's cached rows, with what the item registry and the metadata cache
-- have come to hold on the way, goes with the event that announces it. What is read of the items of
-- other accounts stays the same.
pub data Step : State → State → Type 0 where
  reads :
      (s s' : Service) (w : Sources) (user : Text) (now : ℕ) (entries : List LibraryEntry)
      → library s w user now ≡ some (s', entries)
      → Step (record { service = s; sources = w }) (record { service = s'; sources = w })
  rebuilds :
      (s s' : Service) (w : Sources) (user : Text) (now : ℕ)
      → rebuild_user s w user now ≡ some s'
      → Step (record { service = s; sources = w }) (record { service = s'; sources = w })
  shares :
      (s s' : Service) (w : Sources) (account_id : Text) (v : Visibility) (members : List Text)
      → set_reach_sharing s account_id v members ≡ some s'
      → Step (record { service = s; sources = w }) (record { service = s'; sources = w })
  publishes :
      (s : Service) (w w' : Sources) (provider account_id : Text)
      → OnlyAccount provider account_id w w'
      → Step
          (record { service = s; sources = w })
          (record { service = invalidate_account s provider account_id; sources = w' })

pub data Run : State → State → Type 0 where
  stays : (a : State) → Run a a
  goes_on : (a b c : State) → Run a b → Step b c → Run a c

Step-IsCoherent :
    (a b : State) → Step a b → IsCoherent a.service a.sources → IsCoherent b.service b.sources
Step-IsCoherent a b (reads s s' w user now entries h) c =
    (library-IsCoherent s s' w user now entries h c).0
Step-IsCoherent a b (rebuilds s s' w user now h) c = rebuild_user-IsCoherent s s' w user now h c
Step-IsCoherent a b (shares s s' w account_id v members h) c =
    set_reach_sharing-IsCoherent s s' w account_id v members h c
Step-IsCoherent a b (publishes s w w' provider account_id only) c =
    invalidate_account-IsCoherent s w w' provider account_id only c

Run-IsCoherent :
    (a b : State) → Run a b → IsCoherent a.service a.sources → IsCoherent b.service b.sources
Run-IsCoherent a b (stays a') c = c
Run-IsCoherent a b (goes_on a' m b' r s) c = Step-IsCoherent m b' s (Run-IsCoherent a' m r c)

uncached-IsCoherent : (s : Service) (w : Sources) → s.libraries ≡ [] → IsCoherent s w
unfolding lookup
uncached-IsCoherent s w e user entries found = absurd (ground (arith, e))

library-live :
    (s : Service) (w : Sources) (user : Text) (now : ℕ) (derived : List LibraryEntry)
    → derive w s.reaches user now ≡ some derived
    → (s' : Service) × (entries : List LibraryEntry) × (library s w user now ≡ some (s', entries))
unfolding library rebuild_user
library-live s w user now derived h = elim (Option-cases (lookup user s.libraries)) [
  | inr (entries, there) ↦ (s, entries, ground (arith, there))
  | inl missing ↦
      let s' : Service = record s {
        libraries = insert user derived s.libraries;
        marked = s.marked ++ unresolved derived;
      } in
      (s', derived, ground (arith, missing, lookup-insert user user derived s.libraries))
]

library-reaches :
    (s s' : Service) (w : Sources) (user : Text) (now : ℕ) (entries : List LibraryEntry)
    → library s w user now ≡ some (s', entries)
    → s.reaches ≡ s'.reaches
unfolding library rebuild_user
library-reaches s s' w user now entries h = ground arith

-- However reads, rebuilds, changes of sharing and announced changes of an account follow each other
-- after a state without a cached library, Library answers whenever a derivation now succeeds, and
-- what it answers is a derivation, at some time, from the present reaches and sources. A change of an
-- account may change its rows, the item registry and the metadata references, as long as the items
-- that other accounts list show the same entries as before.
pub library-Run :
    (a b : State) (user : Text) (now : ℕ)
    → a.service.libraries ≡ []
    → Run a b
    → ((derived : List LibraryEntry)
        → derive b.sources b.service.reaches user now ≡ some derived
        → (s : Service) × (entries : List LibraryEntry) × (library b.service b.sources user now
            ≡ some (s, entries)))
      × ((s : Service) (entries : List LibraryEntry)
          → library b.service b.sources user now ≡ some (s, entries)
          → (at : ℕ) × (derive b.sources b.service.reaches user at ≡ some entries))
library-Run a b user now e run =
    let c = Run-IsCoherent a b run (uncached-IsCoherent a.service a.sources e) in
    (
      library-live b.service b.sources user now,
      λ s entries h.
          let (kept, found) = library-IsCoherent b.service s b.sources user now entries h c in
          let (at, d) = kept user entries found in
          (
            at,
            ap (λ reaches. derive b.sources reaches user at)
                  (library-reaches b.service s b.sources user now entries h)
                ∙ d,
          ),
    )
