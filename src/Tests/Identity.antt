-- ===== src/Tests/Identity.antt =====
-- Concrete items for the theorems on core/internal/identity.
use abcmovies.Base.{
  times, ◌⊎◌, ◌≡◌, refl, true, false, List, [], ◌∷◌, Text, text, Text-discrete, blank, Option, none,
  some, lookup, insert, contains, count, text_lt, insert_text, sort_strings,
}
use abcmovies.Identity.Title.{Options, normalize_title, join}
use abcmovies.Identity.Match.{
  Item, ExternalId, TitleMetadata, signal_director, decide, corroboration_match, same_kind,
  title_eq, titles_agree, years_match, shares_any, first_signal,
}
use abcmovies.Identity.Select.{
  contradicts, survives, screen, screen_from, scan, adopt, verdicts, is_corroborated, is_merge,
}
use abcmovies.Identity.Proof.{Proof, proof_of, same_proof, same_id_set, same_strings, id_keys}
use abcmovies.Identity.Evidence.{SameWork, merge-decide_iff}
use abcmovies.Identity.Adoption.{Only, adopt_iff}
use abcmovies.Identity.Sameness.{same_proof_iff}

program : Unit {0}
unfolding Text-discrete blank lookup insert contains text_lt insert_text sort_strings
    normalize_title join decide corroboration_match same_kind title_eq titles_agree years_match
    shares_any proof_of first_signal contradicts survives screen screen_from scan adopt same_proof
    same_id_set same_strings id_keys
program = tt

abbrev pub options : Options
options = record { articles = none; split = λ t. t ∷ [] }

abbrev pub imdb : Text → Option ExternalId
imdb v = some (record { namespace = text "imdb"; value = v })

abbrev pub heat_data : List Text → TitleMetadata
heat_data directors = record {
  title = text "heat";
  year = 1995;
  directors = directors;
  cast = [];
  original_language = [];
  movie = none;
}

-- A film by title, year and director, and the same with an external id.
abbrev pub heat : List (Option ExternalId) → Item
heat ids = record {
  kind = 1;
  external_ids = ids;
  metadata = heat_data (text "mann" ∷ []);
  alt_titles = [];
}

-- A film of the same title and year by nobody known.
abbrev namesake : Item
namesake = record { kind = 1; external_ids = []; metadata = heat_data []; alt_titles = [] }

merges_by_director :
    decide options (heat []) (heat [])
    ≡ record { merge = true; corroborated = false; signal = signal_director }
unfolding program
merges_by_director = refl

merge_found : (decide options (heat []) (heat [])).merge ≡ true
unfolding program
merge_found = refl

merge-decide_iff_example :
    ((decide options (heat []) (heat [])).merge ≡ true → SameWork options (heat []) (heat []))
    × (SameWork options (heat []) (heat []) → (decide options (heat []) (heat [])).merge ≡ true)
merge-decide_iff_example = merge-decide_iff options (heat []) (heat [])

abbrev candidates : List Item
candidates = namesake ∷ heat [] ∷ []

adopts_second : adopt options (heat []) candidates ≡ some 1
unfolding program
adopts_second = refl

adopt_iff_example :
    (adopt options (heat []) candidates ≡ some 1
      → Only is_corroborated (verdicts options (heat []) candidates) 1
        ⊎ ((count is_corroborated (verdicts options (heat []) candidates) ≡ 0)
            × Only is_merge (verdicts options (heat []) candidates) 1))
    × (Only is_corroborated (verdicts options (heat []) candidates) 1
          ⊎ ((count is_corroborated (verdicts options (heat []) candidates) ≡ 0)
              × Only is_merge (verdicts options (heat []) candidates) 1)
        → adopt options (heat []) candidates ≡ some 1)
adopt_iff_example = adopt_iff options (heat []) candidates 1

abbrev proof_a : Proof
proof_a = proof_of 1 (heat_data []) (imdb (text "tt1") ∷ imdb (text "tt2") ∷ [])

abbrev proof_b : Proof
proof_b = proof_of 1 (heat_data []) (imdb (text "tt2") ∷ none ∷ imdb (text "tt1") ∷ [])

-- A duplicate is not ignored.
duplicate_differs :
    same_id_set (imdb (text "tt1") ∷ imdb (text "tt1") ∷ []) (imdb (text "tt1") ∷ []) ≡ false
unfolding program
duplicate_differs = refl

same_proof_iff_example :
    (same_proof options proof_a proof_b ≡ true
      → (proof_a.kind ≡ proof_b.kind)
        × (normalize_title options proof_a.title ≡ normalize_title options proof_b.title)
        × (proof_a.year ≡ proof_b.year)
        × ((k : Text)
            → times k (id_keys proof_a.external_ids) ≡ times k (id_keys proof_b.external_ids)))
    × ((proof_a.kind ≡ proof_b.kind)
          × (normalize_title options proof_a.title ≡ normalize_title options proof_b.title)
          × (proof_a.year ≡ proof_b.year)
          × ((k : Text)
              → times k (id_keys proof_a.external_ids) ≡ times k (id_keys proof_b.external_ids))
        → same_proof options proof_a proof_b ≡ true)
same_proof_iff_example = same_proof_iff options proof_a proof_b

-- Order does not count, nor do ids that are skipped.
reordered_same : same_proof options proof_a proof_b ≡ true
unfolding program
reordered_same = refl
