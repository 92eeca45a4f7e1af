-- ===== src/MetadataCache/Aliases.antt =====
-- core/internal/metadatacache/metadatacache.go: what an id resolves to has a record.
use abcmovies.Base.{
  ◌≡◌, sym, ap, ◌∙◌, ◌≢◌, true, List, [], ◌∷◌, Text, Text-discrete, Option, none, some, ◌⊎◌, inl,
  inr, text_key, lookup, lookup-insert, arith, Bool-cases, Option-cases,
}
use abcmovies.MetadataCache.Cache.{
  Codec, RoundTrips, Cache, new_cache, Fault, is_external_id, keys, purge, delete_record,
  read_record, get_record, put_record, resolve_ref, link_alias,
}
use abcmovies.MetadataCache.Purge.{lookup-purge_all}
use abcmovies.MetadataCache.Rows.{read_record-put, read_record-delete, resolve_ref-cases}

pub data Use (M : Type 0) : Type 0 where
  puts : Text → Option M → Use M
  links : Text → Text → Use M
  deletes : Text → Use M

-- An operation that fails writes nothing.
abbrev pub settle : Cache → Fault ⊎ Cache → Cache
settle c (inl e) = c
settle c (inr next) = next

module _ {M : Type 0} (codec : Codec M) where
  abbrev pub use_once : Cache → Use M → Cache
  use_once c (puts ref m) = settle c (put_record codec c ref m)
  use_once c (links alias ref) = settle c (link_alias codec c alias ref)
  use_once c (deletes ref) = settle c (delete_record c ref)

  unfoldable pub use_cache : Cache → List (Use M) → Cache
  use_cache c [] = c
  use_cache c (u ∷ us) = use_cache (use_once c u) us

  -- The reference of every alias is an external id with a record that can be read.
  pub AliasesLive : Cache → Type 0
  AliasesLive c =
      (id ref : Text)
      → lookup id c.aliases ≡ some ref
      → (is_external_id ref ≡ true) × ((m : M) × (read_record codec c ref ≡ some m))

  resolve_ref-read :
      (c : Cache) (id ref : Text)
      → AliasesLive c
      → resolve_ref codec c id ≡ inr (some ref)
      → (m : M) × (get_record codec c ref ≡ inr (some m))
  unfolding AliasesLive get_record
  resolve_ref-read c id ref live h = elim (resolve_ref-cases codec c id ref h) [
    | inl (e, ok) ↦ let (valid, (m, reads)) = live id ref e in (m, ground (arith, ok, reads))
    | inr (e, same, ok, (m, reads)) ↦
        (m, ap (get_record codec c) (sym same) ∙ ground (arith, ok, reads))
  ]

  AliasesLive-new_cache : AliasesLive new_cache
  unfolding AliasesLive new_cache lookup
  AliasesLive-new_cache id ref h = absurd (ground arith)

  module _ (law : RoundTrips codec) where
    AliasesLive-put :
        (c : Cache) (ref : Text) (m : Option M)
        → AliasesLive c
        → AliasesLive (settle c (put_record codec c ref m))
    unfolding AliasesLive put_record
    AliasesLive-put c ref none live = ground (arith, λ (id : Text) (r : Text). live id r)
    AliasesLive-put c ref (some m) live = elim (Bool-cases (is_external_id ref)) [
      | inl valid ↦ elim (Option-cases (codec.marshal m)) [
        | inl e ↦ rw (put_record, valid, e) live
        | inr (blob, e) ↦
            rw (put_record, valid, e)
              (λ id r there.
                let (ok, (old, reads)) = live id r there in
                (
                  ok,
                  elim (Text-discrete ref r) [
                    | yes same ↦ (
                      m,
                      ground (arith, same, read_record-put codec c ref blob r m (law m blob e)),
                    )
                    | no other ↦ (
                      old,
                      ground (
                        arith,
                        other,
                        reads,
                        read_record-put codec c ref blob r m (law m blob e),
                      ),
                    )
                  ],
                ))
      ]
      | inr bad ↦ rw (put_record, bad) live
    ]

    AliasesLive-link :
        (c : Cache) (alias ref : Text)
        → AliasesLive c
        → AliasesLive (settle c (link_alias codec c alias ref))
    unfolding AliasesLive read_record link_alias
    AliasesLive-link c alias ref live = elim (Bool-cases (is_external_id alias)) [
      | inr bad ↦ rw (link_alias, bad) live
      | inl valid ↦ elim (Bool-cases (is_external_id ref)) [
        | inr bad ↦ rw (link_alias, valid, bad) live
        | inl ok ↦ elim (Option-cases (read_record codec c ref)) [
          | inl e ↦ rw (link_alias, valid, ok, e) live
          | inr (m, e) ↦
              rw (link_alias, valid, ok, e)
                (λ id r there. elim (Text-discrete ref r) [
                  | yes same ↦ (
                    ap is_external_id (sym same) ∙ ok,
                    (m, ap (read_record codec c) (sym same) ∙ e),
                  )
                  | no other ↦
                      live id r (ground (arith, other, there, lookup-insert alias id ref c.aliases))
                ])
        ]
      ]
    ]

    AliasesLive-delete :
        (c : Cache) (ref : Text) → AliasesLive c → AliasesLive (settle c (delete_record c ref))
    unfolding AliasesLive delete_record
    AliasesLive-delete c ref live = elim (Bool-cases (is_external_id ref)) [
      | inr bad ↦ rw (delete_record, bad) live
      | inl valid ↦
          rw (delete_record, valid)
            (λ id r there. elim (Option-cases (lookup id c.aliases)) [
              | inl e ↦ absurd (ground (arith, e, there, lookup-purge_all ref id c.aliases))
              | inr (old, e) ↦
                  let same : old ≡ r =
                    ground (arith, e, there, lookup-purge_all ref id c.aliases) in
                  let kept : ref ≢ r =
                    ground (arith, e, there, lookup-purge_all ref id c.aliases) in
                  let (ok, (m, reads)) = live id r (e ∙ ap some same) in
                  (
                    ok,
                    (
                      m,
                      ground (
                        arith,
                        kept,
                        reads,
                        read_record-delete codec c ref r (purge ref (keys c.aliases) c.aliases),
                      ),
                    ),
                  )
            ])
    ]

    AliasesLive-use_cache :
        (us : List (Use M)) (c : Cache) → AliasesLive c → AliasesLive (use_cache c us)
    unfolding use_cache
    AliasesLive-use_cache [] c live = live
    AliasesLive-use_cache (puts ref m ∷ us) c live =
        AliasesLive-use_cache us _ (AliasesLive-put c ref m live)
    AliasesLive-use_cache (links alias ref ∷ us) c live =
        AliasesLive-use_cache us _ (AliasesLive-link c alias ref live)
    AliasesLive-use_cache (deletes ref ∷ us) c live =
        AliasesLive-use_cache us _ (AliasesLive-delete c ref live)

    -- What an id resolves to, whatever was put, linked and deleted before: a reference under which
    -- `GetRecord` finds a record.
    pub use_cache-resolve_ref :
        (us : List (Use M)) (id ref : Text)
        → resolve_ref codec (use_cache new_cache us) id ≡ inr (some ref)
        → (m : M) × (get_record codec (use_cache new_cache us) ref ≡ inr (some m))
    use_cache-resolve_ref us id ref h =
        resolve_ref-read (use_cache new_cache us) id ref
          (AliasesLive-use_cache us new_cache AliasesLive-new_cache) h
