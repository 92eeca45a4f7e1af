-- ===== src/Library/Reach.antt =====
-- The accounts that feed the libraries of core/internal/library/library.go, and who may use them.
use abcmovies.Base.{
  Bool, true, not, ◌&&◌, List, [], ◌∷◌, Text, ◌==◌, if◌then◌else◌, blank, contains, text_lt, select,
}
use abcmovies.Accounts.Record.{Visibility}

pub record Reach : Type 0 where
  -- `Sync.Provider()`
  pub provider : Text
  pub account_id : Text
  pub owner : Text
  pub visibility : Visibility
  pub members : List Text

abbrev pub owns : Reach → Text → Bool
owns r user = not (blank r.owner) && (r.owner == user)

unfoldable pub authorized : Reach → Text → Bool
authorized r user = elim r.visibility [
  | Visibility.public ↦ true
  | Visibility.shared ↦ if owns r user then true else contains r.members user
  | _ ↦ owns r user
]

unfoldable pub insert_reach : Reach → List Reach → List Reach
insert_reach r [] = r ∷ []
insert_reach r (s ∷ l) =
    let rest = insert_reach r l in if text_lt s.account_id r.account_id then s ∷ rest else r ∷ s ∷ l

-- `snapshot`: the map's values in the order of their account ids.
unfoldable pub snapshot : List (Text × Reach) → List Reach
snapshot [] = []
snapshot ((id, r) ∷ reaches) = insert_reach r (snapshot reaches)

-- `derivable`
unfoldable pub derivable : List (Text × Reach) → Text → List Reach
derivable reaches user = select (λ r. authorized r user) (snapshot reaches)
