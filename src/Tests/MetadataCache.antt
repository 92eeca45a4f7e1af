-- ===== src/Tests/MetadataCache.antt =====
-- A concrete cache for the theorems on core/internal/metadatacache.
use abcmovies.Base.{
  ◌≡◌, refl, sym, List, [], ◌∷◌, Text, text, Text-discrete, blank, some, inl, inr, insert, lookup,
  delete, text_key,
}
use abcmovies.MetadataCache.Cache.{
  Codec, RoundTrips, Cache, new_cache, cut, is_external_id, get_record, put_record, resolve_ref,
  link_alias, delete_record, read_record, keys, purge, list_aliases, list_aliases_of, list_records,
  no_record,
}
use abcmovies.MetadataCache.Aliases.{Use, puts, links, use_cache, use_cache-resolve_ref}

program : Unit {0}
unfolding Text-discrete blank insert lookup delete cut is_external_id get_record put_record
    resolve_ref link_alias delete_record read_record keys purge new_cache use_cache list_aliases
    list_aliases_of list_records
program = tt

-- Records that are texts, and their own form.
abbrev pub plain : Codec Text
plain = record { marshal = λ t. some t; unmarshal = λ t. some t }

plain-RoundTrips : RoundTrips plain
plain-RoundTrips m blob e = sym e

abbrev heat : Text
heat = text "tmdb:949"

abbrev imdb : Text
imdb = text "imdb:tt0113277"

abbrev uses : List (Use Text)
uses = puts heat (some (text "Heat")) ∷ links imdb heat ∷ links (text "imdb") heat ∷ []

abbrev cache : Cache
cache = record { records = (heat, text "Heat") ∷ []; aliases = (imdb, heat) ∷ [] }

cache-uses : use_cache plain new_cache uses ≡ cache
unfolding program
cache-uses = refl

cache-list_aliases : list_aliases cache ≡ (imdb, heat) ∷ []
unfolding program
cache-list_aliases = refl

cache-list_records : list_records cache ≡ heat ∷ []
unfolding program
cache-list_records = refl

link_missing : link_alias plain cache imdb (text "tmdb:1") ≡ inl (no_record imdb (text "tmdb:1"))
unfolding program
link_missing = refl

use_cache-resolve_ref_example :
    (m : Text) × (get_record plain (use_cache plain new_cache uses) heat ≡ inr (some m))
unfolding program
use_cache-resolve_ref_example = use_cache-resolve_ref plain plain-RoundTrips uses imdb heat refl
