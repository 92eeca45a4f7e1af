-- ===== src/MetadataCache/Purge.antt =====
-- core/internal/metadatacache/metadatacache.go: what the loop of `DeleteRecord` does to the alias rows.
use abcmovies.Base.{
  ◌≡◌, refl, sym, ap, ◌∙◌, true, List, [], ◌∷◌, Text, Text-discrete, ◌==◌, if◌then◌else◌, Option,
  none, some, inl, inr, text_key, lookup, delete, lookup-delete, contains, arith, Option-cases,
}
use abcmovies.MetadataCache.Cache.{keys, purge}

-- What a purge leaves of a row.
abbrev pub spared : Text → Option Text → Option Text
spared ref none = none
spared ref (some blob) = if blob == ref then none else some blob

purge-row :
    (ref key : Text) (rest : List Text) (rows : List (Text × Text)) (o : Option Text)
    → lookup key rows ≡ o
    → purge ref (key ∷ rest) rows ≡ elim o [
      | none ↦ purge ref rest rows
      | some blob ↦ purge ref rest (if blob == ref then delete key rows else rows)
    ]
unfolding purge
purge-row ref key rest rows o e = rw (purge, e) refl

lookup-swept :
    (ref key a blob : Text) (rows : List (Text × Text))
    → lookup key rows ≡ some blob
    → lookup a (if blob == ref then delete key rows else rows)
      ≡ (if key == a then spared ref (lookup a rows) else lookup a rows)
lookup-swept ref key a blob rows e = elim (Text-discrete key a) [
  | yes same ↦
      let f : lookup a rows ≡ some blob = ap (λ k. lookup k rows) (sym same) ∙ e in
      ground (arith, same, f, lookup-delete key a rows)
  | no other ↦ ground (arith, other, lookup-delete key a rows)
]

spared_twice : (ref : Text) (o : Option Text) → spared ref (spared ref o) ≡ spared ref o
spared_twice ref none = refl
spared_twice ref (some blob) = ground arith

lookup-purge :
    (ref a : Text) (ks : List Text) (rows : List (Text × Text))
    → lookup a (purge ref ks rows)
      ≡ (if contains ks a then spared ref (lookup a rows) else lookup a rows)
unfolding purge contains
lookup-purge ref a [] rows = refl
lookup-purge ref a (key ∷ ks) rows = elim (Option-cases (lookup key rows)) [
  | inl gone ↦
      let missing : (key ≡ a) → lookup a rows ≡ none =
        λ (s : key ≡ a). ap (λ k. lookup k rows) (sym s) ∙ gone in
      ap (lookup a) (purge-row ref key ks rows none gone)
      ∙ lookup-purge ref a ks rows
      ∙ elim (Text-discrete key a) [
        | yes s ↦ ground (arith, s, missing s)
        | no other ↦ ground (arith, other)
      ]
  | inr (blob, there) ↦
      let swept = if blob == ref then delete key rows else rows in
      ap (lookup a) (purge-row ref key ks rows (some blob) there)
      ∙ lookup-purge ref a ks swept
      ∙ elim (Text-discrete key a) [
        | yes s ↦
            ground
              (arith, s, lookup-swept ref key a blob rows there, spared_twice ref (lookup a rows))
        | no other ↦ ground (arith, other, lookup-swept ref key a blob rows there)
      ]
]

contains-keys :
    (a blob : Text) (rows : List (Text × Text))
    → lookup a rows ≡ some blob
    → contains (keys rows) a ≡ true
unfolding keys lookup contains
contains-keys a blob [] e = absurd (ground arith)
contains-keys a blob ((k, v) ∷ rows) e = ground (arith, contains-keys a blob rows)

-- Every alias that names the reference goes, and no other.
pub lookup-purge_all :
    (ref a : Text) (rows : List (Text × Text))
    → lookup a (purge ref (keys rows) rows) ≡ spared ref (lookup a rows)
lookup-purge_all ref a rows = elim (Option-cases (lookup a rows)) [
  | inl gone ↦ ground (arith, gone, lookup-purge ref a (keys rows) rows)
  | inr (blob, there) ↦
      ground (arith, there, contains-keys a blob rows there, lookup-purge ref a (keys rows) rows)
]
