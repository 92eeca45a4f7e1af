-- ===== src/Base/Order.antt =====
-- The order of Go's strings, byte by byte.
use mathlib.Core.Bool.{Bool, true, false}
use mathlib.Core.List.{List, [], ◌∷◌}
use abcmovies.Base.Words.{Text, ltb, if◌then◌else◌}

unfoldable pub text_lt : Text → Text → Bool
text_lt [] [] = false
text_lt [] (y ∷ ys) = true
text_lt (x ∷ xs) [] = false
text_lt (x ∷ xs) (y ∷ ys) = if ltb x y then true else if ltb y x then false else text_lt xs ys

unfoldable pub insert_text : Text → List Text → List Text
insert_text t [] = t ∷ []
insert_text t (s ∷ l) = let rest = insert_text t l in if text_lt s t then s ∷ rest else t ∷ s ∷ l

-- `sort.Strings`
unfoldable pub sort_strings : List Text → List Text
sort_strings [] = []
sort_strings (t ∷ l) = insert_text t (sort_strings l)
