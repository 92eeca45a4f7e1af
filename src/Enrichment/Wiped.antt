-- ===== src/Enrichment/Wiped.antt =====
-- core/internal/enrichment/merge.go: a film's runtime in the record of a series.
use abcmovies.Base.{
  ℕ, ◌≡◌, ◌≢◌, refl, ◌∙◌, true, false, ◌&&◌, text, ◌==◌, inl, inr, text_key, lookup, Text-discrete,
  arith, any-In,
}
use abcmovies.Enrichment.Merge.{
  TitleMetadata, movie, Contribution, TypedField, typed_fields, take_over, merge_fields, keys_of,
  sorted_keys, merged_record,
}
use abcmovies.Enrichment.Ownership.{claims_field, WritesOnly, read-merge_fields, read-merge_extras}
use abcmovies.Enrichment.Provenance.{claims, typed_fields-KeepSource, lookup-merged_record}
use abcmovies.Enrichment.Merged.{
  Half, seasons, episodes, half_path, read_half, NoClaim, unclaimed, claims_extra-half, half-blind,
}

film-WritesOnly :
    (h : Half) (src : TitleMetadata) (minutes : ℕ)
    → src.kind_specific ≡ movie minutes
    → WritesOnly (read_half h) (text "movie.runtime_minutes") 0 (typed_fields src)
unfolding typed_fields Text-discrete
film-WritesOnly seasons src minutes film = rw film (ground arith)
film-WritesOnly episodes src minutes film = rw film (ground arith)

typed_fields-film :
    (h : Half) (src : TitleMetadata) (minutes : ℕ)
    → src.kind_specific ≡ movie minutes
    → NoClaim (half_path h) (typed_fields src)
unfolding typed_fields Text-discrete
typed_fields-film seasons src minutes film = rw film (
    (
      inl refl,
      (
        inl refl,
        (
          inl refl,
          (
            inl refl,
            (
              inl refl,
              (
                inl refl,
                (
                  inl refl,
                  (inl refl, (inl refl, (inl refl, (inl refl, (inr refl, (inl refl, tt)))))),
                ),
              ),
            ),
          ),
        ),
      ),
    ))
typed_fields-film episodes src minutes film = rw film (
    (
      inl refl,
      (
        inl refl,
        (
          inl refl,
          (
            inl refl,
            (
              inl refl,
              (
                inl refl,
                (
                  inl refl,
                  (inl refl, (inl refl, (inl refl, (inl refl, (inl refl, (inr refl, tt)))))),
                ),
              ),
            ),
          ),
        ),
      ),
    ))

claims-half :
    (h : Half) (src : TitleMetadata) (minutes : ℕ)
    → src.kind_specific ≡ movie minutes
    → claims src (half_path h) ≡ false
unfolding claims
claims-half h src minutes film = ground (
  arith,
  unclaimed (half_path h) (typed_fields src) (typed_fields-film h src minutes film),
  claims_extra-half h (keys_of src.extra),
)

claims-film :
    (src : TitleMetadata) (minutes : ℕ)
    → src.kind_specific ≡ movie minutes
    → minutes ≢ 0
    → claims_field (text "movie.runtime_minutes") (typed_fields src) ≡ true
unfolding typed_fields Text-discrete
claims-film src minutes film there =
    any-In (λ (f : TypedField). f.present && (f.path == text "movie.runtime_minutes")) _
      (typed_fields src) (inr (inr (inr (inr (inr (inr (inr (inr (inr (inr (inl refl)))))))))))
      (rw film (ground arith))

-- A film's runtime that is taken over wipes the numbers of a series, whoever owns them, and leaves
-- the entries of the owners on their paths.
pub merged_record-wiped :
    (cur src : TitleMetadata) (c : Contribution) (now minutes : ℕ) (h : Half)
    → src.kind_specific ≡ movie minutes
    → minutes ≢ 0
    → take_over (lookup (text "movie.runtime_minutes") cur.source) c ≡ true
    → (read_half h (merged_record cur src c now) ≡ 0)
      × (lookup (half_path h) (merged_record cur src c now).source
          ≡ lookup (half_path h) cur.source)
unfolding merged_record
merged_record-wiped cur src c now minutes h film there free = (
  read-merge_extras (read_half h) (sorted_keys src.extra) src.extra
        (merge_fields (typed_fields src) cur c now) c now (half-blind h)
      ∙ ground (
        arith,
        read-merge_fields (read_half h) 0 (typed_fields src) cur c now
            (text "movie.runtime_minutes") (typed_fields-KeepSource src)
            (film-WritesOnly h src minutes film) (λ m s. half-blind h m m.extra s),
        claims-film src minutes film there,
      ),
  ground (arith, lookup-merged_record cur src c now (half_path h), claims-half h src minutes film),
)
