-- ===== src/Identity/Title.antt =====
-- core/internal/identity/normalize.go: a title's comparable form.
use abcmovies.Base.{List, [], ◌∷◌, ◌++◌, Text, text, if◌then◌else◌, Option, none, some, contains}

abbrev pub default_articles : List Text
default_articles = text "the" ∷ text "a" ∷ text "an" ∷ []

-- `Options`; a nil slice is `none`. `split` reads a title with golang.org/x/text and Go's Unicode
-- tables: the fields of the lowercased NFKD form without its combining marks.
pub record Options : Type 0 where
  pub articles : Option (List Text)
  pub split : Text → List Text

abbrev pub articles_list : Options → List Text
articles_list o = elim o.articles [ none ↦ default_articles | some list ↦ list ]

-- `strings.Join(fields, " ")`
unfoldable pub join : List Text → Text
join [] = []
join (w ∷ []) = w
join (w ∷ v ∷ ws) = w ++ (b' ' ∷ join (v ∷ ws))

abbrev drop_article : Options → List Text → List Text
drop_article o [] = []
drop_article o (w ∷ []) = w ∷ []
drop_article o (w ∷ v ∷ ws) = if contains (articles_list o) w then v ∷ ws else w ∷ v ∷ ws

unfoldable pub normalize_title : Options → Text → Text
normalize_title o title = join (drop_article o (o.split title))
