-- ===== src/Accounts/Roster.antt =====
-- The canonical roster of core/internal/accounts/accounts.go.
use abcmovies.Base.{
  ◌≡◌, sym, ap, ◌∙◌, ◌↔◌, Bool, not, ◌&&◌, List, [], ◌∷◌, Text, ◌==◌, if◌then◌else◌, blank,
  contains, any, times, times-sort_strings, IsSorted-unique, sort_strings-IsSorted, arith,
  Text-discrete,
}
use abcmovies.Accounts.Record.{canon_loop, canon_users}

-- A user is named by a slice: one of its strings is the user's name between spaces.
abbrev pub names : (Text → Text) → List Text → Text → Bool
names trim users u = not (blank u) && any (λ v. trim v == u) users

times-canon_loop :
    (trim : Text → Text) (seen users : List Text) (u : Text)
    → times u (canon_loop trim seen users)
      ≡ (if names trim users u && not (contains seen u) then 1 else 0)
unfolding canon_loop contains
times-canon_loop trim seen [] u = ground arith
times-canon_loop trim seen (v ∷ users) u = elim (Text-discrete (trim v) u) [
  | yes e ↦ ground (
    arith,
    e,
    ap blank e,
    ap (contains seen) e,
    times-canon_loop trim seen users u,
    times-canon_loop trim (trim v ∷ seen) users u,
  )
  | no other ↦ ground (
    arith,
    other,
    times-canon_loop trim seen users u,
    times-canon_loop trim (trim v ∷ seen) users u,
  )
]

pub times-canon_users :
    (trim : Text → Text) (users : List Text) (u : Text)
    → times u (canon_users trim users) ≡ (if names trim users u then 1 else 0)
unfolding canon_users contains
times-canon_users trim users u =
    times-sort_strings u (canon_loop trim [] users)
    ∙ times-canon_loop trim [] users u
    ∙ ground arith

-- Two slices have one canonical roster exactly when they name the same users: spaces, blanks,
-- repetitions and the order do not count.
pub canon_users_iff :
    (trim : Text → Text) (xs ys : List Text)
    → (canon_users trim xs ≡ canon_users trim ys) ↔ ((u : Text) → names trim xs u ≡ names trim ys u)
unfolding canon_users
canon_users_iff trim xs ys = (
  λ e u. ground (arith, ap (times u) e, times-canon_users trim xs u, times-canon_users trim ys u),
  λ h.
      IsSorted-unique (canon_users trim xs) (canon_users trim ys) (sort_strings-IsSorted _)
        (sort_strings-IsSorted _)
        (λ u.
          times-canon_users trim xs u
          ∙ ap (λ (b : Bool). if b then 1 else 0) (h u)
          ∙ sym (times-canon_users trim ys u)),
)
