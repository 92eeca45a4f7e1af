-- ===== src/Enrichment/Stored.antt =====
-- core/internal/enrichment/engine.go: what the metadata cache holds once a candidate is stored, and that `Enrich` does.
use abcmovies.Base.{
  ℕ, ◌≡◌, refl, sym, ap, ◌∙◌, subst, true, false, ◌&&◌, List, [], ◌∷◌, Text, Text-discrete, ◌==◌,
  if◌then◌else◌, some, ◌⊎◌, inl, inr, text_key, lookup, insert, lookup-insert, contains, Bool-cases,
  arith,
}
use abcmovies.MetadataCache.Cache.{
  Cache, Codec, RoundTrips, is_external_id, read_record, get_record, put_record, link_alias,
}
use abcmovies.MetadataCache.Rows.{put_record-get_record, was_put}
use abcmovies.Enrichment.Merge.{TitleMetadata, merge}
use abcmovies.Enrichment.Engine.{
  Engine, FullItem, alias_keys, link_all, contribution, current, fold_in, enrich,
}
use abcmovies.Enrichment.Winner.{Wrote, enrich-Wrote}

-- A link to a record that is there fails only for an alias that is no external id.
link_alias-there :
    (codec : Codec TitleMetadata) (c : Cache) (alias ref : Text) (m : TitleMetadata)
    → read_record codec c ref ≡ some m
    → is_external_id ref ≡ true
    → is_external_id alias ≡ true
    → link_alias codec c alias ref
      ≡ inr (record { records = c.records; aliases = insert alias ref c.aliases })
unfolding link_alias
link_alias-there codec c alias ref m e ok valid = ground (arith, e, ok, valid)

link_alias-invalid :
    (codec : Codec TitleMetadata) (c : Cache) (alias ref : Text)
    → is_external_id alias ≡ false
    → elim (link_alias codec c alias ref) [ inl fault ↦ c | inr next ↦ next ] ≡ c
unfolding link_alias
link_alias-invalid codec c alias ref bad = ground (arith, bad)

-- The links of a loop: the records stay, and the aliases that are external ids name the reference.
pub record Linked (c next : Cache) (ref : Text) (aliases : List Text) : Type 0 where
  pub records : next.records ≡ c.records
  pub rows :
      (a : Text)
      → lookup a next.aliases
        ≡ (if contains aliases a && is_external_id a then some ref else lookup a c.aliases)

read_record-aliases :
    (codec : Codec TitleMetadata) (c next : Cache) (r : Text)
    → next.records ≡ c.records
    → read_record codec next r ≡ read_record codec c r
unfolding read_record
read_record-aliases codec c next r e = rw e refl

link_all-Linked :
    (codec : Codec TitleMetadata) (aliases : List Text) (c : Cache) (ref : Text) (m : TitleMetadata)
    → read_record codec c ref ≡ some m
    → is_external_id ref ≡ true
    → Linked c (link_all codec c ref aliases) ref aliases
unfolding link_all contains
link_all-Linked codec [] c ref m e ok = record { records = refl; rows = λ a. refl }
link_all-Linked codec (alias ∷ rest) c ref m e ok = elim (Bool-cases (is_external_id alias)) [
  | inr bad ↦
      let ih = link_all-Linked codec rest c ref m e ok in
      rw (link_alias-invalid codec c alias ref bad) (record {
        records = ih.records;
        rows = λ a. elim (Text-discrete alias a) [
          | yes s ↦ ground (arith, s, ap is_external_id s, bad, ih.rows a)
          | no other ↦ ground (arith, other, ih.rows a)
        ];
      })
  | inl valid ↦
      let next : Cache = record { records = c.records; aliases = insert alias ref c.aliases } in
      let ih =
        link_all-Linked codec rest next ref m (read_record-aliases codec c next ref refl ∙ e) ok in
      rw (link_alias-there codec c alias ref m e ok valid) (record {
        records = ih.records;
        rows = λ a. elim (Text-discrete alias a) [
          | yes s ↦
              ground (
                arith,
                s,
                ap is_external_id s,
                valid,
                ih.rows a,
                lookup-insert alias a ref c.aliases,
              )
          | no other ↦ ground (arith, other, ih.rows a, lookup-insert alias a ref c.aliases)
        ];
      })
]

get_record-aliases :
    (codec : Codec TitleMetadata) (c next : Cache) (r : Text)
    → next.records ≡ c.records
    → get_record codec next r ≡ get_record codec c r
unfolding get_record
get_record-aliases codec c next r e = rw (read_record-aliases codec c next r e) refl

-- What the cache holds once a candidate is stored: its record, merged into the one that was there;
-- the other records as they were; and for each alias that is an external id its reference.
pub record Stored (y : Engine) (c next : Cache) (win : FullItem) (now : ℕ) : Type 0 where
  pub merged : TitleMetadata
  pub folded : merge y.trim (current y.codec c win.ref) (contribution win) now ≡ inr merged
  pub valid : is_external_id win.ref ≡ true
  pub read :
      (r : Text)
      → get_record y.codec next r
        ≡ (if win.ref == r then inr (some merged) else get_record y.codec c r)
  pub rows :
      (a : Text)
      → lookup a next.aliases ≡ (
          if contains (alias_keys win.ref win.response.external_ids) a && is_external_id a
          then some win.ref
          else lookup a c.aliases)

Result-cases : {E A : Type 0} (r : E ⊎ A) → ((e : E) × (r ≡ inl e)) ⊎ ((a : A) × (r ≡ inr a))
Result-cases (inl e) = inl (e, refl)
Result-cases (inr a) = inr (a, refl)

put_record-valid :
    (codec : Codec TitleMetadata) (c next : Cache) (ref : Text) (m : TitleMetadata)
    → put_record codec c ref (some m) ≡ inr next
    → (is_external_id ref ≡ true) × (next.aliases ≡ c.aliases)
put_record-valid codec c next ref m h =
    let (ok, (blob, e, written)) = was_put codec c next ref m h in (ok, ap (λ z. z.aliases) written)

get_record-read :
    (codec : Codec TitleMetadata) (c : Cache) (ref : Text) (m : TitleMetadata)
    → get_record codec c ref ≡ inr (some m)
    → read_record codec c ref ≡ some m
unfolding get_record
get_record-read codec c ref m h = ground arith

pub fold_in-Stored :
    (y : Engine) (c next : Cache) (win : FullItem) (now : ℕ)
    → RoundTrips y.codec
    → fold_in y c win now ≡ inr next
    → Stored y c next win now
unfolding fold_in
fold_in-Stored y c next win now law h =
    elim (Result-cases (merge y.trim (current y.codec c win.ref) (contribution win) now)) [
      | inl (fault, e) ↦ absurd (ground (arith, e))
      | inr (m, e) ↦ elim (Result-cases (put_record y.codec c win.ref (some m))) [
        | inl (fault, f) ↦ absurd (ground (arith, e, f))
        | inr (put, f) ↦
            let keys = alias_keys win.ref win.response.external_ids in
            let done : next ≡ link_all y.codec put win.ref keys = ground (arith, e, f) in
            let (ok, same) = put_record-valid y.codec c put win.ref m f in
            let got = put_record-get_record y.codec law c put win.ref win.ref m f in
            let there : get_record y.codec put win.ref ≡ inr (some m) = ground (arith, got) in
            let l =
              link_all-Linked y.codec keys put win.ref m
                (get_record-read y.codec put win.ref m there) ok in
            subst (λ z. Stored y c z win now) (sym done)
              (record {
                merged = m;
                folded = e;
                valid = ok;
                read = λ r.
                    get_record-aliases y.codec put (link_all y.codec put win.ref keys) r l.records
                    ∙ put_record-get_record y.codec law c put win.ref r m f;
                rows = λ a. ground (arith, l.rows a, ap (lookup a) same);
              })
      ]
    ]

-- With a codec that reads back what it writes: where `Enrich` succeeds, it leaves the cache as it was,
-- or none of the entry's ids had a record, and it has stored a candidate that a catalogue listed for
-- the entry, that passed the screen, and that merges with the entry by its details. Then the record
-- of that candidate is merged into the one that was there, every other record is as it was, and of
-- the aliases just those of the candidate that are external ids have come to name it.
pub enrich-Stored :
    (y : Engine) (c next : Cache) (entry_id : Text) (now : ℕ)
    → RoundTrips y.codec
    → enrich y c entry_id now ≡ inr next
    → (next ≡ c) ⊎ ((w : Wrote y c next entry_id now) × Stored y c next w.win now)
enrich-Stored y c next entry_id now law h = elim (enrich-Wrote y c next entry_id now h) [
  | inl same ↦ inl same
  | inr w ↦ inr (w, fold_in-Stored y c next w.win now law w.stored)
]
