-- ===== src/MetadataCache/Rows.antt =====
-- core/internal/metadatacache/metadatacache.go: what a put, a link and a delete change for a reader.
use abcmovies.Base.{
  ◌≡◌, ap, ◌≢◌, true, List, Text, Text-discrete, ◌==◌, if◌then◌else◌, none, some, ◌⊎◌, inl, inr,
  text_key, lookup, insert, delete, lookup-insert, lookup-delete, arith, Bool-cases, Option-cases,
}
use abcmovies.MetadataCache.Cache.{
  Codec, RoundTrips, Cache, is_external_id, keys, purge, delete_record, read_record, get_record,
  put_record, resolve_ref, link_alias,
}
use abcmovies.MetadataCache.Purge.{lookup-purge_all}

abbrev pub purged : Cache → Text → Cache
purged c ref = record {
  records = delete ref c.records;
  aliases = purge ref (keys c.aliases) c.aliases;
}

module _ {M : Type 0} (codec : Codec M) where
  pub read_record-put :
      (c : Cache) (ref blob r : Text) (m : M)
      → codec.unmarshal blob ≡ some m
      → read_record codec (record { records = insert ref blob c.records; aliases = c.aliases }) r
        ≡ (if ref == r then some m else read_record codec c r)
  unfolding read_record
  read_record-put c ref blob r m e = ground (arith, e, lookup-insert ref r blob c.records)

  pub read_record-delete :
      (c : Cache) (ref r : Text) (rows : List (Text × Text))
      → read_record codec (record { records = delete ref c.records; aliases = rows }) r
        ≡ (if ref == r then none else read_record codec c r)
  unfolding read_record
  read_record-delete c ref r rows = ground (arith, lookup-delete ref r c.records)

  -- How an id resolves: by its alias row, or, where it has none, to itself by its own record.
  pub resolve_ref-cases :
      (c : Cache) (id ref : Text)
      → resolve_ref codec c id ≡ inr (some ref)
      → ((lookup id c.aliases ≡ some ref) × (is_external_id ref ≡ true))
        ⊎ ((lookup id c.aliases ≡ none)
            × (id ≡ ref)
            × (is_external_id id ≡ true)
            × ((m : M) × (read_record codec c id ≡ some m)))
  unfolding resolve_ref
  resolve_ref-cases c id ref h = elim (Option-cases (lookup id c.aliases)) [
    | inl e ↦ elim (Option-cases (read_record codec c id)) [
      | inl f ↦ absurd (ground (arith, e, f))
      | inr (m, f) ↦ inr (e, ground (arith, e, f), ground (arith, e, f), (m, f))
    ]
    | inr (r, e) ↦ inl (ground (arith, e), ground (arith, e))
  ]

  deleted :
      (c next : Cache) (ref : Text)
      → delete_record c ref ≡ inr next
      → (is_external_id ref ≡ true)
        × (next ≡ record {
          records = delete ref c.records;
          aliases = purge ref (keys c.aliases) c.aliases;
        })
  unfolding delete_record
  deleted c next ref h = elim (Bool-cases (is_external_id ref)) [
    | inl ok ↦ (ok, ground (arith, ok))
    | inr bad ↦ absurd (ground (arith, bad))
  ]

  after_delete :
      (c : Cache) (ref id r : Text)
      → is_external_id ref ≡ true
      → (resolve_ref codec (purged c ref) id ≢ inr (some ref))
        × (ref ≢ r
            → resolve_ref codec c id ≡ inr (some r)
            → resolve_ref codec (purged c ref) id ≡ inr (some r))
  unfolding resolve_ref
  after_delete c ref id r ok = (
    λ bad. elim (resolve_ref-cases (purged c ref) id ref bad) [
      | inl (e, _) ↦ ground (arith, e, lookup-purge_all ref id c.aliases)
      | inr (e, same, _, (m, f)) ↦
          ground (arith, same, f, read_record-delete c ref id (purged c ref).aliases)
    ],
    λ other h. elim (resolve_ref-cases c id r h) [
      | inl (e, _) ↦ ground (arith, e, lookup-purge_all ref id c.aliases)
      | inr (e, same, valid, (m, f)) ↦ ground (
        arith,
        e,
        same,
        f,
        lookup-purge_all ref id c.aliases,
        read_record-delete c ref id (purged c ref).aliases,
      )
    ],
  )

  -- Once a record is deleted, no id resolves to it, and an id that resolved to another reference
  -- still does.
  pub delete_record-resolve_ref :
      (c next : Cache) (ref id r : Text)
      → delete_record c ref ≡ inr next
      → (resolve_ref codec next id ≢ inr (some ref))
        × (ref ≢ r
            → resolve_ref codec c id ≡ inr (some r)
            → resolve_ref codec next id ≡ inr (some r))
  delete_record-resolve_ref c next ref id r h =
      let (ok, e) = deleted c next ref h in rw e (after_delete c ref id r ok)

  pub linked :
      (c next : Cache) (alias ref : Text)
      → link_alias codec c alias ref ≡ inr next
      → (is_external_id alias ≡ true)
        × (is_external_id ref ≡ true)
        × (next ≡ record { records = c.records; aliases = insert alias ref c.aliases })
  unfolding link_alias
  linked c next alias ref h = elim (Bool-cases (is_external_id alias)) [
    | inr bad ↦ absurd (ground (arith, bad))
    | inl valid ↦ elim (Bool-cases (is_external_id ref)) [
      | inr bad ↦ absurd (ground (arith, valid, bad))
      | inl ok ↦ elim (Option-cases (read_record codec c ref)) [
        | inl e ↦ absurd (ground (arith, valid, ok, e))
        | inr (m, e) ↦ (valid, ok, ground (arith, valid, ok, e))
      ]
    ]
  ]

  -- An alias that is linked resolves to its reference, and every other id resolves as before.
  pub link_alias-resolve_ref :
      (c next : Cache) (alias ref id : Text)
      → link_alias codec c alias ref ≡ inr next
      → resolve_ref codec next id ≡ (if alias == id then inr (some ref) else resolve_ref codec c id)
  unfolding resolve_ref read_record
  link_alias-resolve_ref c next alias ref id h =
      let (valid, ok, e) = linked c next alias ref h in
      rw e (elim (Text-discrete alias id) [
        | yes same ↦
            ground
              (arith, same, ap is_external_id same, valid, ok, lookup-insert alias id ref c.aliases)
        | no other ↦ ground (arith, other, lookup-insert alias id ref c.aliases)
      ])

  pub was_put :
      (c next : Cache) (ref : Text) (m : M)
      → put_record codec c ref (some m) ≡ inr next
      → (is_external_id ref ≡ true)
        × ((blob : Text) × (codec.marshal m ≡ some blob)
            × (next ≡ record { records = insert ref blob c.records; aliases = c.aliases }))
  unfolding put_record
  was_put c next ref m h = elim (Bool-cases (is_external_id ref)) [
    | inr bad ↦ absurd (ground (arith, bad))
    | inl ok ↦ elim (Option-cases (codec.marshal m)) [
      | inl e ↦ absurd (ground (arith, ok, e))
      | inr (blob, e) ↦ (ok, (blob, e, ground (arith, ok, e)))
    ]
  ]

  module _ (law : RoundTrips codec) where
    -- The record that is put is read back under its reference, and every other reference reads
    -- what it read before.
    pub put_record-get_record :
        (c next : Cache) (ref r : Text) (m : M)
        → put_record codec c ref (some m) ≡ inr next
        → get_record codec next r ≡ (if ref == r then inr (some m) else get_record codec c r)
    unfolding get_record
    put_record-get_record c next ref r m h =
        let (ok, (blob, e, written)) = was_put c next ref m h in
        rw written (elim (Text-discrete ref r) [
          | yes same ↦ ground (
            arith,
            same,
            ap is_external_id same,
            ok,
            read_record-put c ref blob r m (law m blob e),
          )
          | no other ↦ ground (arith, other, read_record-put c ref blob r m (law m blob e))
        ])
