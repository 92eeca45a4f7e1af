-- ===== src/Enrichment/Again.antt =====
-- core/internal/enrichment/engine.go: an entry whose record is stored.
use abcmovies.Base.{
  ℕ, ◌≡◌, Bool, true, List, [], ◌∷◌, Text, Option, some, inl, inr, text_key, contains, any, All,
  Bool-cases, arith,
}
use abcmovies.Identity.Match.{ExternalId}
use abcmovies.MetadataCache.Cache.{
  Cache, Codec, RoundTrips, is_external_id, get_record, resolve_ref,
}
use abcmovies.Enrichment.Merge.{TitleMetadata}
use abcmovies.Enrichment.Engine.{
  Engine, FullItem, recorded, known_ids, alias_keys, enrich, external_key,
}
use abcmovies.Enrichment.Winner.{Wrote}
use abcmovies.Enrichment.Stored.{Stored, fold_in-Stored}

-- Every alias of the record resolves to it.
Stored-resolve_ref :
    (y : Engine) (c next : Cache) (win : FullItem) (now : ℕ) (a : Text)
    → Stored y c next win now
    → is_external_id a ≡ true
    → contains (alias_keys win.ref win.response.external_ids) a ≡ true
    → resolve_ref y.codec next a ≡ inr (some win.ref)
unfolding resolve_ref
Stored-resolve_ref y c next win now a s ok is = ground (arith, s.rows a, s.valid, ok, is)

Stored-get_record :
    (y : Engine) (c next : Cache) (win : FullItem) (now : ℕ)
    → (s : Stored y c next win now) → get_record y.codec next win.ref ≡ inr (some s.merged)
Stored-get_record y c next win now s = ground (arith, s.read win.ref)

-- Whether an id is one of a set of aliases.
abbrev pub among : List Text → Option ExternalId → Bool
among aliases id = contains aliases (external_key id)

-- The ids of the entry are external ids.
abbrev pub AllNamed : List (Option ExternalId) → Type 0
AllNamed ids = All (λ id. is_external_id (external_key id) ≡ true) ids

known_ids-head :
    (codec : Codec TitleMetadata) (c : Cache) (id : Option ExternalId)
    (ids : List (Option ExternalId)) (ref : Text) (m : TitleMetadata)
    → resolve_ref codec c (external_key id) ≡ inr (some ref)
    → get_record codec c ref ≡ inr (some m)
    → known_ids codec c (id ∷ ids) ≡ recorded
unfolding known_ids
known_ids-head codec c id ids ref m e f = ground (arith, e, f)

known_ids-tail :
    (codec : Codec TitleMetadata) (c : Cache) (id : Option ExternalId)
    (ids : List (Option ExternalId))
    → is_external_id (external_key id) ≡ true
    → known_ids codec c ids ≡ recorded
    → known_ids codec c (id ∷ ids) ≡ recorded
unfolding known_ids resolve_ref
known_ids-tail codec c id ids ok e = ground (arith, ok, e)

known_ids-Stored :
    (y : Engine) (c next : Cache) (win : FullItem) (now : ℕ) (ids : List (Option ExternalId))
    → Stored y c next win now
    → AllNamed ids
    → any (among (alias_keys win.ref win.response.external_ids)) ids ≡ true
    → known_ids y.codec next ids ≡ recorded
known_ids-Stored y c next win now [] s named hit = absurd (ground arith)
known_ids-Stored y c next win now (id ∷ ids) s named hit =
    elim (Bool-cases (among (alias_keys win.ref win.response.external_ids) id)) [
      | inl is ↦
          known_ids-head y.codec next id ids win.ref s.merged
            (Stored-resolve_ref y c next win now (external_key id) s named.0 is)
            (Stored-get_record y c next win now s)
      | inr other ↦
          known_ids-tail y.codec next id ids named.0
            (known_ids-Stored y c next win now ids s named.1 (ground (arith, other)))
    ]

-- Once `Enrich` has stored the record of an entry all of whose ids are external ids, and one of them
-- is among those that the catalogue asserted besides the reference, enriching the entry again, at
-- any later time, succeeds and changes nothing.
pub enrich_again :
    (y : Engine) (c next : Cache) (entry_id : Text) (now later : ℕ)
    → RoundTrips y.codec
    → (w : Wrote y c next entry_id now) → AllNamed w.ev.external_ids
    → any (among (alias_keys w.win.ref w.win.response.external_ids)) w.ev.external_ids ≡ true
    → enrich y next entry_id later ≡ inr next
unfolding enrich
enrich_again y c next entry_id now later law w named hit = ground (
  arith,
  w.asked,
  known_ids-Stored y c next w.win now w.ev.external_ids
      (fold_in-Stored y c next w.win now law w.stored) named hit,
)
