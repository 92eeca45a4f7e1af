-- ===== src/Tests/Metadata.antt =====
-- Concrete records, catalogues and queues for the theorems on core/internal/enrichment.
use abcmovies.Base.{
  ℕ_discrete, ap, ◌≡◌, refl, sym, List, [], ◌∷◌, Text, text, Text-discrete, blank, Option, some,
  none, inl, inr, insert, lookup, contains, arith, eqb, ◌⊎◌, text_key, text_lt, insert_text,
  sort_strings, false,
}
use abcmovies.Identity.Title.{normalize_title, join}
use abcmovies.Identity.Match.{
  ExternalId, decide, corroboration_match, same_kind, title_eq, titles_agree, years_match,
  shares_any, first_signal,
}
use abcmovies.Identity.Select.{contradicts, survives, screen, screen_from, scan, adopt}
use abcmovies.MetadataCache.Cache.{
  Codec, RoundTrips, Cache, new_cache, cut, is_external_id, get_record, put_record, resolve_ref,
  link_alias, read_record,
}
use abcmovies.Enrichment.Merge.{
  TitleMetadata, Contribution, source_catalogue, source_provider, unset, movie, series, merge,
  merged_record, founded_record, merge_fields, merge_extras, merge_extra, merge_into, stamp_fields,
  stamp_extra, stamp, take_over, has_prefix, typed_fields, extra_path, sorted_keys, keys_of,
}
use abcmovies.Enrichment.Merged.{Merged, seasons, read_half, half_path, merge-Merged}
use abcmovies.Enrichment.Wiped.{merged_record-wiped}
use abcmovies.Enrichment.Engine.{
  unknown, full_item, pooled, Engine, Catalogue, EntryEvidence, TitleCandidate, GetMetadataResponse,
  FullItem, external_key, known_ids, pool_of, candidate_item, claimed_ids, get_elem?, full_items,
  alias_keys, link_all, current, fold_in, pick, choose, screened, search_text, enrich,
}
use abcmovies.Enrichment.Winner.{IsWinner, Wrote}
use abcmovies.Enrichment.Stored.{Stored, enrich-Stored}
use abcmovies.Enrichment.Candidates.{IsOffered}
use abcmovies.Enrichment.Again.{enrich_again}
use abcmovies.Enrichment.Queue.{Queue, new_queue, enqueue, forget, try_next}
use abcmovies.Enrichment.Worker.{drain, round, drain_cadence}
use abcmovies.Enrichment.Draining.{Drained, drain-Drained}

program : Unit {0}
unfolding Text-discrete blank insert lookup contains text_lt insert_text sort_strings
    normalize_title join decide corroboration_match same_kind title_eq titles_agree years_match
    shares_any first_signal contradicts survives screen screen_from scan adopt cut is_external_id
    get_record put_record resolve_ref link_alias read_record new_cache merge merged_record
    founded_record merge_fields merge_extras merge_extra merge_into stamp_fields stamp_extra stamp
    take_over has_prefix typed_fields extra_path sorted_keys keys_of external_key known_ids pool_of
    candidate_item claimed_ids get_elem? full_items alias_keys link_all current fold_in pick choose
    screened search_text enrich new_queue enqueue forget try_next drain round drain_cadence
program = tt

abbrev pub empty : TitleMetadata
empty = record {
  title = [];
  year = 0;
  description = [];
  poster_url = [];
  rating = 0;
  content_rating = [];
  genres = [];
  original_language = [];
  cast = [];
  directors = [];
  kind_specific = unset;
  source = [];
  extra = [];
}

abbrev heat : TitleMetadata
heat = record empty {
  title = text "Heat";
  year = 1995;
  directors = text "Mann" ∷ [];
  extra = (text "tagline", text "A Los Angeles crime saga") ∷ [];
}

abbrev tmdb : Contribution
tmdb = record { slot = text "tmdb"; kind = source_catalogue; metadata = some heat }

abbrev jellyfin : Contribution
jellyfin = record {
  slot = text "jellyfin";
  kind = source_provider;
  metadata = some (record empty { title = text "Heat (1995)"; description = text "Two men." });
}

-- The title goes from the provider to the catalogue, the description stays with the provider.
abbrev offered : TitleMetadata
offered =
    founded_record (record empty { title = text "Heat (1995)"; description = text "Two men." })
      jellyfin 5

taken_over :
    lookup (text "base.title") (merged_record offered heat tmdb 9).source
    ≡ some (record { slot = text "catalogue:tmdb"; fetched_at = 9 })
unfolding program
taken_over = refl

kept :
    lookup (text "base.description") (merged_record offered heat tmdb 9).source
    ≡ some (record { slot = text "provider:jellyfin"; fetched_at = 5 })
unfolding program
kept = refl

merge-Merged_example :
    (out : TitleMetadata) × (merge (λ t. t) (some offered) tmdb 9 ≡ inr out)
    × Merged offered heat out tmdb 9
unfolding program
merge-Merged_example = merge-Merged (λ t. t) offered heat tmdb 9 refl refl

abbrev show : TitleMetadata
show = record empty {
  kind_specific = series 3 30;
  source =
      (text "series.total_seasons", record { slot = text "catalogue:tmdb"; fetched_at = 5 }) ∷ [];
}

abbrev film : TitleMetadata
film = record empty { kind_specific = movie 170 }

merged_record-wiped_example :
    (read_half seasons (merged_record show film jellyfin 9) ≡ 0)
    × (lookup (half_path seasons) (merged_record show film jellyfin 9).source
        ≡ lookup (half_path seasons) show.source)
unfolding program
merged_record-wiped_example =
    merged_record-wiped show film jellyfin 9 170 seasons refl (ground arith) refl

abbrev tmdb_id : Option ExternalId
tmdb_id = some (record { namespace = text "tmdb"; value = text "949" })

abbrev imdb_id : Option ExternalId
imdb_id = some (record { namespace = text "imdb"; value = text "tt0113277" })

abbrev heat_response : GetMetadataResponse
heat_response = record { metadata = some heat; external_ids = imdb_id ∷ tmdb_id ∷ [] }

abbrev heat_candidate : TitleCandidate
heat_candidate = record {
  ref = text "tmdb:949";
  title = text "Heat";
  original_title = [];
  kind = 1;
  year = 1995;
  external_ids = [];
}

abbrev catalogue : Catalogue
catalogue = record {
  slot = text "tmdb";
  lookup_title = λ r. some (heat_candidate ∷ []);
  get_metadata = λ r. some heat_response;
}

abbrev heat_evidence : EntryEvidence
heat_evidence = record { kind = 1; metadata = some heat; external_ids = imdb_id ∷ [] }

abbrev stored_record : TitleMetadata
stored_record = founded_record heat tmdb 9

TitleMetadata-discrete : Discrete TitleMetadata
unfolding ℕ_discrete
TitleMetadata-discrete = hlevel (Text-discrete, ℕ_discrete)

-- A form for the one record that is stored below.
abbrev one_record : Codec TitleMetadata
one_record = record {
  marshal = λ m. elim (TitleMetadata-discrete m stored_record) [
    | yes e ↦ some (text "heat")
    | no n ↦ none
  ];
  unmarshal = λ t. some stored_record;
}

one_record-RoundTrips : RoundTrips one_record
one_record-RoundTrips m blob e = elim (TitleMetadata-discrete m stored_record) [
  | yes same ↦ ap some (sym same)
  | no other ↦ absurd (ground (arith, e, other))
]

abbrev engine : Engine
engine = record {
  evidence = λ id. inr (some heat_evidence);
  codec = one_record;
  catalogs = catalogue ∷ [];
  opts = record { articles = none; split = λ t. t ∷ [] };
  trim = λ t. t;
}

abbrev enriched : Cache
enriched = record {
  records = (text "tmdb:949", text "heat") ∷ [];
  aliases = (text "imdb:tt0113277", text "tmdb:949") ∷ [];
}

enrich_heat : enrich engine new_cache (text "le_1") 9 ≡ inr enriched
unfolding program TitleMetadata-discrete
enrich_heat = refl

heat_IsOffered : IsOffered (catalogue ∷ []) heat_evidence (pooled catalogue heat_candidate)
heat_IsOffered = record {
  candidates = heat_candidate ∷ [];
  candidate = heat_candidate;
  from_slot = inl refl;
  answered = refl;
  listed = inl refl;
  same = refl;
}

abbrev heat_win : FullItem
heat_win = full_item (pooled catalogue heat_candidate) heat_response

heat_IsWinner : IsWinner engine heat_evidence heat_win
unfolding program
heat_IsWinner = record {
  origin = pooled catalogue heat_candidate;
  response = heat_response;
  offered = heat_IsOffered;
  screened = refl;
  fetched = refl;
  same = refl;
  merges = refl;
}

heat_fold_in : fold_in engine new_cache heat_win 9 ≡ inr enriched
unfolding program TitleMetadata-discrete
heat_fold_in = refl

heat_known : known_ids one_record new_cache (imdb_id ∷ []) ≡ unknown
unfolding program
heat_known = refl

abbrev heat_Wrote : Wrote engine new_cache enriched (text "le_1") 9
heat_Wrote = record {
  ev = heat_evidence;
  win = heat_win;
  asked = refl;
  new = heat_known;
  winner = heat_IsWinner;
  stored = heat_fold_in;
}

enrich-Stored_example :
    (enriched ≡ new_cache)
    ⊎ ((w : Wrote engine new_cache enriched (text "le_1") 9) × Stored engine new_cache enriched
          w.win 9)
enrich-Stored_example =
    enrich-Stored engine new_cache enriched (text "le_1") 9 one_record-RoundTrips enrich_heat

enrich_again_example : enrich engine enriched (text "le_1") 50 ≡ inr enriched
unfolding program
enrich_again_example =
    enrich_again engine new_cache enriched (text "le_1") 9 50 one_record-RoundTrips heat_Wrote
      (refl, tt) refl

abbrev two_wait : Queue
two_wait = record { pending = text "a" ∷ text "b" ∷ []; seen = text "b" ∷ text "a" ∷ [] }

-- A callback that notes what it is given.
abbrev note : List Text → Text → List Text
note seen id = id ∷ seen

drain_both :
    drain note (λ n. false) 3 two_wait [] 0
    ≡ some (record { pending = []; seen = [] }, text "b" ∷ text "a" ∷ [])
unfolding program
drain_both = refl

-- A cancellation before the second entry puts it back.
drain_cancelled :
    drain note (λ n. eqb n 2) 3 two_wait [] 0
    ≡ some (record { pending = text "b" ∷ []; seen = text "b" ∷ [] }, text "a" ∷ [])
unfolding program
drain_cancelled = refl

drain-Drained_example :
    Drained note
      (λ n. false)
      (text "a" ∷ text "b" ∷ [])
      []
      (drain note (λ n. false) 3 two_wait [] 0)
drain-Drained_example = drain-Drained note (λ n. false) two_wait [] 3 0 (omega arith)
