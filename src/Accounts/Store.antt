-- ===== src/Accounts/Store.antt =====
-- The `Store` of core/internal/accounts/accounts.go. The vault's two kinds of key, the records' and
-- the sessions', are two maps; its own failures are left out, and `none` is an error that writes
-- nothing.
use abcmovies.Base.{
  ℕ, Bool, ◌||◌, List, [], ◌∷◌, Text, text_key, if◌then◌else◌, blank, eqb, ltb, text_lt, Option,
  none, some, lookup, insert, delete,
}
use abcmovies.Accounts.Record.{
  Account, Visibility, CapChangePolicy, valid_policy, status_linked, canon_users,
}

pub record Vault : Type 0 where
  pub records : List (Text × Account)
  pub blobs : List (Text × Text)

-- The visibility and the roster that are stored for those asked for.
unfoldable pub sharing : (Text → Text) → Visibility → List Text → Option (Visibility × List Text)
sharing trim Visibility.private users = some (Visibility.private, [])
sharing trim Visibility.public users = some (Visibility.public, [])
sharing trim Visibility.shared [] = none
sharing trim Visibility.shared (u ∷ users) = some (Visibility.shared, canon_users trim (u ∷ users))
sharing trim v users = none

-- `Add` reads an unset visibility as private.
abbrev pub asked : Visibility → Visibility
asked Visibility.unset = Visibility.private
asked v = v

abbrev pub stored : Account → Visibility × List Text → ℕ → Account
stored rec (v, users) now = record rec {
  status = if blank rec.status then status_linked else rec.status;
  visibility = v;
  shared_with = users;
  created_at = if eqb rec.created_at 0 then now else rec.created_at;
}

unfoldable pub add : (Text → Text) → Vault → ℕ → Account → Option Vault
add trim s now rec =
    if blank rec.id || (blank rec.provider || (blank rec.base_url || blank rec.username))
    then none
    else elim (sharing trim (asked rec.visibility) rec.shared_with) [
      | none ↦ none
      | some chosen ↦ elim (lookup rec.id s.records) [
        | some old ↦ none
        | none ↦ some (record s { records = insert rec.id (stored rec chosen now) s.records })
      ]
    ]

abbrev pub get : Vault → Text → Option Account
get s id = lookup id s.records

-- `update`: the mutation may refuse.
unfoldable pub update : Vault → Text → (Account → Option Account) → Option Vault
update s id mutate = elim (lookup id s.records) [
  | none ↦ none
  | some rec ↦ elim (mutate rec) [
    | none ↦ none
    | some rec' ↦ some (record s { records = insert id rec' s.records })
  ]
]

unfoldable pub set_status : Vault → Text → Text → Option Vault
set_status s id status = update s id (λ rec. some (record rec { status = status }))

abbrev pub share : (Text → Text) → Visibility → List Text → Account → Option Account
share trim v users rec = elim (sharing trim v users) [
  | none ↦ none
  | some (v', users') ↦ some (record rec { visibility = v'; shared_with = users' })
]

unfoldable pub set_sharing : (Text → Text) → Vault → Text → Visibility → List Text → Option Vault
set_sharing trim s id v users = update s id (share trim v users)

unfoldable pub set_max_concurrent_streams : Vault → Text → ℕ → Option Vault
set_max_concurrent_streams s id n =
    update s id (λ rec. some (record rec { max_concurrent_streams = n }))

unfoldable pub set_cap_change_policy : Vault → Text → CapChangePolicy → Option Vault
set_cap_change_policy s id p =
    if valid_policy p
    then update s id (λ rec. some (record rec { cap_change_policy = p }))
    else none

-- `Delete` takes the record and the session.
unfoldable pub remove : Vault → Text → Vault
remove s id = record { records = delete id s.records; blobs = delete id s.blobs }

unfoldable pub save : Vault → Text → Text → Vault
save s id blob = record s { blobs = insert id blob s.blobs }

abbrev pub load : Vault → Text → Option Text
load s id = lookup id s.blobs

abbrev older : Account → Account → Bool
older a b =
    if eqb a.created_at b.created_at then text_lt a.id b.id else ltb a.created_at b.created_at

unfoldable pub insert_account : Account → List Account → List Account
insert_account a [] = a ∷ []
insert_account a (b ∷ l) =
    let rest = insert_account a l in if older b a then b ∷ rest else a ∷ b ∷ l

unfoldable pub by_age : List (Text × Account) → List Account
by_age [] = []
by_age ((id, a) ∷ records) = insert_account a (by_age records)

-- `List`, oldest first.
abbrev pub list : Vault → List Account
list s = by_age s.records

-- A call that changes the store.
pub data Change : Type 0 where
  adds : Account → ℕ → Change
  sets_status : Text → Text → Change
  sets_sharing : Text → Visibility → List Text → Change
  sets_max : Text → ℕ → Change
  sets_policy : Text → CapChangePolicy → Change
  removes : Text → Change
  saves : Text → Text → Change

-- A call that fails changes nothing.
abbrev pub kept : Vault → Option Vault → Vault
kept s none = s
kept s (some s') = s'

unfoldable pub change : (Text → Text) → Vault → Change → Vault
change trim s (adds rec now) = kept s (add trim s now rec)
change trim s (sets_status id status) = kept s (set_status s id status)
change trim s (sets_sharing id v users) = kept s (set_sharing trim s id v users)
change trim s (sets_max id n) = kept s (set_max_concurrent_streams s id n)
change trim s (sets_policy id p) = kept s (set_cap_change_policy s id p)
change trim s (removes id) = remove s id
change trim s (saves id blob) = save s id blob

unfoldable pub changes : (Text → Text) → Vault → List Change → Vault
changes trim s [] = s
changes trim s (c ∷ cs) = changes trim (change trim s c) cs

unfoldable pub empty : Vault
empty = record { records = []; blobs = [] }
