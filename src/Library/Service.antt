-- ===== src/Library/Service.antt =====
-- The `Service` of core/internal/library/library.go: the registered accounts and the cache of
-- derived libraries, a map by user in place of the store's escaped keys. Failures of the store are
-- left out.
use abcmovies.Base.{
  ℕ, Bool, true, false, not, ◌&&◌, ◌||◌, List, [], ◌∷◌, ◌++◌, Text, ◌==◌, if◌then◌else◌, blank, any,
  Option, none, some, lookup, insert, delete, text_key, select_pairs,
}
use abcmovies.Accounts.Record.{Visibility}
use abcmovies.Library.Reach.{Reach, authorized, derivable}
use abcmovies.Library.Derive.{LibraryEntry, Sources, derive}

pub record Service : Type 0 where
  pub reaches : List (Text × Reach)
  pub libraries : List (Text × List LibraryEntry)
  -- the entries handed to `mark`, oldest first
  pub marked : List Text

-- `AddReach`; `synced` says that there is a synchronizer.
unfoldable pub add_reach : Service → Bool → Reach → Option Service
add_reach s synced r =
    if blank r.account_id || not synced then none else elim (lookup r.account_id s.reaches) [
      | some dup ↦ none
      | none ↦ some (record s { reaches = insert r.account_id r s.reaches })
    ]

unfoldable pub remove_reach : Service → Text → Service
remove_reach s account_id = record s { reaches = delete account_id s.reaches }

unfoldable pub add_reaches : Service → List Reach → Option Service
add_reaches s [] = some s
add_reaches s (r ∷ rs) = elim (add_reach s true r) [ none ↦ none | some s' ↦ add_reaches s' rs ]

-- `NewService`, of reaches with synchronizers.
unfoldable pub new_service : List Reach → Option Service
new_service rs = add_reaches (record { reaches = []; libraries = []; marked = [] }) rs

-- `sweepUserCaches`
unfoldable pub sweep_user_caches : (Text → Bool) → Service → Service
sweep_user_caches invalidate s = record s {
  libraries = select_pairs (λ user _. not (invalidate user)) s.libraries;
}

abbrev invalidate_all : Service → Service
invalidate_all s = record s { libraries = [] }

abbrev pub shared : Reach → Visibility → List Text → Reach
shared r visibility members = record r { visibility = visibility; members = members }

unfoldable pub set_reach_sharing : Service → Text → Visibility → List Text → Option Service
set_reach_sharing s account_id visibility members = elim (lookup account_id s.reaches) [
  | none ↦ none
  | some before ↦
      let r = shared before visibility members in
      some (
        sweep_user_caches (λ user. authorized before user || authorized r user)
          (record s { reaches = insert account_id r s.reaches }))
]

-- `ReachAuthorized`
unfoldable pub reach_authorized : Service → Text → Text → Option Reach × Bool
reach_authorized s account_id user = elim (lookup account_id s.reaches) [
  | none ↦ (none, false)
  | some r ↦ (some r, authorized r user)
]

-- `ReachesForUser`
abbrev pub reaches_for_user : Service → Text → List Reach
reaches_for_user s user = derivable s.reaches user

-- The values of the map that carry an account of a provider.
unfoldable pub carriers : Text → Text → List (Text × Reach) → List Reach
carriers provider account_id [] = []
carriers provider account_id ((id, r) ∷ reaches) =
    let rest = carriers provider account_id reaches in
    if (r.account_id == account_id) && (r.provider == provider) then r ∷ rest else rest

-- Everyone's libraries are dropped if the account has no carrier.
unfoldable pub invalidate : List Reach → Service → Service
invalidate [] s = invalidate_all s
invalidate (r ∷ rs) s = sweep_user_caches (λ user. any (λ c. authorized c user) (r ∷ rs)) s

unfoldable pub invalidate_account : Service → Text → Text → Service
invalidate_account s provider account_id = invalidate (carriers provider account_id s.reaches) s

-- The entries without a record, which are handed to `mark`.
unfoldable pub unresolved : List LibraryEntry → List Text
unresolved [] = []
unresolved (e ∷ es) = let rest = unresolved es in if blank e.metadata_ref then e.id ∷ rest else rest

-- `RebuildUser`
unfoldable pub rebuild_user : Service → Sources → Text → ℕ → Option Service
rebuild_user s w user now = elim (derive w s.reaches user now) [
  | none ↦ none
  | some entries ↦ some (record s {
    libraries = insert user entries s.libraries;
    marked = s.marked ++ unresolved entries;
  })
]

-- `Library`: the service afterwards and the entries; `none` is an error.
unfoldable pub library : Service → Sources → Text → ℕ → Option (Service × List LibraryEntry)
library s w user now = elim (lookup user s.libraries) [
  | some entries ↦ some (s, entries)
  | none ↦ elim (rebuild_user s w user now) [
    | none ↦ none
    | some s' ↦ elim (lookup user s'.libraries) [ none ↦ none | some entries ↦ some (s', entries) ]
  ]
]
