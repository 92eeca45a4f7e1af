-- ===== src/Tests/Accounts.antt =====
-- Concrete accounts for the theorems on core/internal/accounts.
use abcmovies.Base.{
  ◌≡◌, refl, false, List, [], ◌∷◌, Text, text, Text-discrete, blank, eqb, if◌then◌else◌, arith,
  contains, text_lt, insert_text, sort_strings, ℕ_discrete,
}
use abcmovies.Accounts.Record.{Account, Visibility, canon_loop, canon_users, CapChangePolicy}
use abcmovies.Accounts.Store.{Change, adds, sets_sharing, changes, empty}
use abcmovies.Accounts.Roster.{names}
use abcmovies.Accounts.Invariant.{changes-IsCanonical, empty-IsCanonical, IsCanonical}

-- `strings.TrimSpace` on names that hold no space but a leading one.
abbrev pub trim : Text → Text
trim [] = []
trim (c ∷ t) = if eqb c 32 then t else c ∷ t

abbrev pub account : Account
account = record {
  id = text "a";
  provider = text "jellyfin";
  base_url = text "http://j";
  username = text "eve";
  owner_user_id = text "ann";
  status = [];
  visibility = Visibility.unset;
  shared_with = [];
  max_concurrent_streams = 0;
  cap_change_policy = CapChangePolicy.inherited;
  created_at = 0;
}

abbrev calls : List Change
calls =
    adds account 7
    ∷ sets_sharing (text "a") Visibility.shared (text "cy" ∷ text " bob" ∷ text "cy" ∷ [])
    ∷ []

canonical :
    canon_users trim (text "cy" ∷ text " bob" ∷ text "cy" ∷ []) ≡ text "bob" ∷ text "cy" ∷ []
unfolding canon_users canon_loop contains sort_strings insert_text text_lt Text-discrete ℕ_discrete
    blank
canonical = refl

changes-IsCanonical_example : IsCanonical (changes trim empty calls)
changes-IsCanonical_example = changes-IsCanonical trim calls empty empty-IsCanonical

blank_named : (u : Text) → names trim (text " " ∷ []) u ≡ false
unfolding blank
blank_named [] = refl
blank_named (c ∷ u) = ground arith
