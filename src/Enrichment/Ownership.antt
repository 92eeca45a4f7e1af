-- ===== src/Enrichment/Ownership.antt =====
-- core/internal/enrichment/merge.go: who owns a path, and which value it has, after a merge.
use abcmovies.Base.{
  ℕ, ◌≡◌, refl, ap, ◌∙◌, Bool, true, ◌&&◌, List, [], ◌∷◌, Text, ◌==◌, if◌then◌else◌, Option, some,
  inl, inr, text_key, lookup, insert, lookup-insert, Text-discrete, any, All, arith, Bool-cases,
}
use abcmovies.Enrichment.Merge.{
  EnrichmentSource, TitleMetadata, Contribution, TypedField, owner, take_over, stamp, merge_into,
  merge_fields, merge_extras, merge_extra, extra_path, value_at,
}

-- The entry that the contributor leaves on a path.
abbrev pub mine : Contribution → ℕ → Option EnrichmentSource
mine c now = some (record { slot = owner c; fetched_at = now })

-- What a path turns into when the contribution claims it or not.
abbrev pub claimed {ℓ} : {A : Type ℓ} → Bool → Contribution → Option EnrichmentSource → A → A → A
claimed claims c incumbent new old = if claims && take_over incumbent c then new else old

-- The fields that the contribution populates under a path.
abbrev pub claims_field : Text → List TypedField → Bool
claims_field p fs = any (λ f. f.present && (f.path == p)) fs

take_over-mine : (c : Contribution) (now : ℕ) → take_over (mine c now) c ≡ true
unfolding take_over
take_over-mine c now = ground arith

-- A field under a path writes the value, and a field under another path keeps it.
abbrev pub WritesOnly {ℓ} : {A : Type ℓ} → (TitleMetadata → A) → Text → A → List TypedField → Type ℓ
WritesOnly read p v fs =
    All
      (λ f.
        f.present ≡ true
        → (dst : TitleMetadata) → read (f.write dst) ≡ (if f.path == p then v else read dst))
      fs

-- No field writes the provenance.
abbrev pub KeepSource : List TypedField → Type 0
KeepSource fs = All (λ f. (dst : TitleMetadata) → (f.write dst).source ≡ dst.source) fs

lookup-merge_into :
    (f : TypedField) (out : TitleMetadata) (c : Contribution) (now : ℕ) (p : Text)
    → ((dst : TitleMetadata) → (f.write dst).source ≡ dst.source)
    → lookup p (merge_into f out c now).source
      ≡ claimed
          (f.present && (f.path == p))
          c
          (lookup p out.source)
          (mine c now)
          (lookup p out.source)
unfolding merge_into stamp
lookup-merge_into f out c now p keep = elim (Text-discrete f.path p) [
  | yes e ↦ ground (
    arith,
    e,
    ap (λ q. lookup q out.source) e,
    keep out,
    lookup-insert f.path p (record { slot = owner c; fetched_at = now }) out.source,
  )
  | no other ↦ ground (
    arith,
    other,
    keep out,
    lookup-insert f.path p (record { slot = owner c; fetched_at = now }) out.source,
  )
]

pub lookup-merge_fields :
    (fs : List TypedField) (out : TitleMetadata) (c : Contribution) (now : ℕ) (p : Text)
    → KeepSource fs
    → lookup p (merge_fields fs out c now).source
      ≡ claimed (claims_field p fs) c (lookup p out.source) (mine c now) (lookup p out.source)
unfolding merge_fields
lookup-merge_fields [] out c now p keep = refl
lookup-merge_fields (f ∷ fs) out c now p keep = ground (
  arith,
  lookup-merge_fields fs (merge_into f out c now) c now p keep.1,
  lookup-merge_into f out c now p keep.0,
  take_over-mine c now,
)

read-merge_into :
    {A : Type 0} (read : TitleMetadata → A) (v : A) (f : TypedField) (out : TitleMetadata)
    (c : Contribution) (now : ℕ) (p : Text)
    → (f.present ≡ true
        → (dst : TitleMetadata) → read (f.write dst) ≡ (if f.path == p then v else read dst))
    → ((m : TitleMetadata) (s : List (Text × EnrichmentSource))
        → read (record m { source = s }) ≡ read m)
    → read (merge_into f out c now)
      ≡ claimed (f.present && (f.path == p)) c (lookup p out.source) v (read out)
unfolding merge_into stamp
read-merge_into read v f out c now p w blind = elim (Bool-cases f.present) [
  | inr absent ↦ rw (merge_into, absent) refl
  | inl there ↦ elim (Bool-cases (take_over (lookup f.path out.source) c)) [
    | inr theirs ↦
        rw (merge_into, there, theirs)
          (elim (Text-discrete f.path p) [
            | yes e ↦ ground (arith, ap (λ q. take_over (lookup q out.source) c) e, theirs)
            | no other ↦ ground (arith, other)
          ])
    | inl free ↦
        rw (merge_into, there, free)
          (blind (f.write out)
              (insert f.path (record { slot = owner c; fetched_at = now }) (f.write out).source)
            ∙ w there out
            ∙ elim (Text-discrete f.path p) [
              | yes e ↦ ground (arith, e, ap (λ q. take_over (lookup q out.source) c) e, free)
              | no other ↦ ground (arith, other)
            ])
  ]
]

pub read-merge_fields :
    {A : Type 0} (read : TitleMetadata → A) (v : A) (fs : List TypedField) (out : TitleMetadata)
    (c : Contribution) (now : ℕ) (p : Text)
    → KeepSource fs
    → WritesOnly read p v fs
    → ((m : TitleMetadata) (s : List (Text × EnrichmentSource))
        → read (record m { source = s }) ≡ read m)
    → read (merge_fields fs out c now)
      ≡ claimed (claims_field p fs) c (lookup p out.source) v (read out)
unfolding merge_fields
read-merge_fields read v [] out c now p keep w blind = refl
read-merge_fields read v (f ∷ fs) out c now p keep w blind = ground (
  arith,
  read-merge_fields read v fs (merge_into f out c now) c now p keep.1 w.1 blind,
  read-merge_into read v f out c now p w.0 blind,
  lookup-merge_into f out c now p keep.0,
  take_over-mine c now,
)

-- The keys of the extra map that are claimed under a path.
abbrev pub claims_extra : Text → List Text → Bool
claims_extra p ks = any (λ key. extra_path key == p) ks

lookup-merge_extra :
    (key val : Text) (out : TitleMetadata) (c : Contribution) (now : ℕ) (p : Text)
    → lookup p (merge_extra out key val c now).source
      ≡ claimed (extra_path key == p) c (lookup p out.source) (mine c now) (lookup p out.source)
unfolding merge_extra stamp
lookup-merge_extra key val out c now p = elim (Text-discrete (extra_path key) p) [
  | yes e ↦ ground (
    arith,
    e,
    ap (λ q. lookup q out.source) e,
    lookup-insert (extra_path key) p (record { slot = owner c; fetched_at = now }) out.source,
  )
  | no other ↦ ground (
    arith,
    other,
    lookup-insert (extra_path key) p (record { slot = owner c; fetched_at = now }) out.source,
  )
]

pub lookup-merge_extras :
    (ks : List Text) (extra : List (Text × Text)) (out : TitleMetadata) (c : Contribution) (now : ℕ)
    (p : Text)
    → lookup p (merge_extras ks extra out c now).source
      ≡ claimed (claims_extra p ks) c (lookup p out.source) (mine c now) (lookup p out.source)
unfolding merge_extras
lookup-merge_extras [] extra out c now p = refl
lookup-merge_extras (key ∷ ks) extra out c now p = ground (
  arith,
  lookup-merge_extras ks extra (merge_extra out key (value_at key extra) c now) c now p,
  lookup-merge_extra key (value_at key extra) out c now p,
  take_over-mine c now,
)

-- The extra keys are merged after the fields, and leave them as they are.
pub read-merge_extras :
    {A : Type 0} (read : TitleMetadata → A) (ks : List Text) (extra : List (Text × Text))
    (out : TitleMetadata) (c : Contribution) (now : ℕ)
    → ((m : TitleMetadata) (e : List (Text × Text)) (s : List (Text × EnrichmentSource))
        → read (record m { extra = e; source = s }) ≡ read m)
    → read (merge_extras ks extra out c now) ≡ read out
unfolding merge_extras merge_extra stamp
read-merge_extras read [] extra out c now blind = refl
read-merge_extras read (key ∷ ks) extra out c now blind =
    read-merge_extras read ks extra (merge_extra out key (value_at key extra) c now) c now blind
    ∙ kept
  where
    kept : read (merge_extra out key (value_at key extra) c now) ≡ read out
    kept = elim (Bool-cases (take_over (lookup (extra_path key) out.source) c)) [
      | inl free ↦ rw (merge_extra, free, stamp) (blind out _ _)
      | inr theirs ↦ rw (merge_extra, theirs) refl
    ]

extra_path-injective : (k l : Text) → (extra_path k == extra_path l) ≡ (k == l)
unfolding extra_path
extra_path-injective k l = ground arith

extra-merge_extra :
    (key val : Text) (out : TitleMetadata) (c : Contribution) (now : ℕ) (k : Text)
    → lookup k (merge_extra out key val c now).extra
      ≡ claimed (key == k) c (lookup (extra_path k) out.source) (some val) (lookup k out.extra)
unfolding merge_extra stamp
extra-merge_extra key val out c now k = elim (Text-discrete key k) [
  | yes e ↦
      ground
        (arith, e, ap (λ q. lookup (extra_path q) out.source) e, lookup-insert key k val out.extra)
  | no other ↦ ground (arith, other, lookup-insert key k val out.extra)
]

pub extra-merge_extras :
    (ks : List Text) (extra : List (Text × Text)) (out : TitleMetadata) (c : Contribution) (now : ℕ)
    (k : Text)
    → lookup k (merge_extras ks extra out c now).extra
      ≡ claimed
          (any (λ key. key == k) ks)
          c
          (lookup (extra_path k) out.source)
          (some (value_at k extra))
          (lookup k out.extra)
unfolding merge_extras
extra-merge_extras [] extra out c now k = refl
extra-merge_extras (key ∷ ks) extra out c now k = elim (Text-discrete key k) [
  | yes e ↦ ground (
    arith,
    e,
    ap (λ q. value_at q extra) e,
    extra-merge_extras ks extra (merge_extra out key (value_at key extra) c now) c now k,
    extra-merge_extra key (value_at key extra) out c now k,
    lookup-merge_extra key (value_at key extra) out c now (extra_path k),
    extra_path-injective key k,
    take_over-mine c now,
  )
  | no other ↦ ground (
    arith,
    other,
    extra-merge_extras ks extra (merge_extra out key (value_at key extra) c now) c now k,
    extra-merge_extra key (value_at key extra) out c now k,
    lookup-merge_extra key (value_at key extra) out c now (extra_path k),
    extra_path-injective key k,
    take_over-mine c now,
  )
]
