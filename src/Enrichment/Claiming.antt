-- ===== src/Enrichment/Claiming.antt =====
-- `mayTakeOver` of core/internal/enrichment/merge.go, by who owns a path.
use abcmovies.Base.{
  ◌≡◌, refl, true, [], ◌∷◌, Text, text, ◌++◌, blank, Option, none, some, Text-discrete, Bool-cases,
  ◌↔◌, inl, inr, arith,
}
use abcmovies.Enrichment.Merge.{
  EnrichmentSource, Contribution, SourceKind, source_catalogue, source_provider, is_catalogue,
  owner, has_prefix, take_over,
}

-- Who may take a path: it has no owner, or the contributor is its owner, or a catalogue takes it from
-- a provider.
pub data MayTake (c : Contribution) : Option EnrichmentSource → Type 0 where
  no_owner : MayTake c none
  nameless : (s : EnrichmentSource) → s.slot ≡ [] → MayTake c (some s)
  same_owner : (s : EnrichmentSource) → s.slot ≡ owner c → MayTake c (some s)
  over_provider :
      (s : EnrichmentSource) (name : Text)
      → c.kind ≡ source_catalogue
      → s.slot ≡ text "provider:" ++ name
      → MayTake c (some s)

has_prefix-cut : (s p : Text) → has_prefix s p ≡ true → (rest : Text) × (s ≡ p ++ rest)
unfolding has_prefix
has_prefix-cut s [] h = (s, refl)
has_prefix-cut [] (p ∷ ps) h = absurd (ground arith)
has_prefix-cut (c ∷ cs) (p ∷ ps) h =
    let r = has_prefix-cut cs ps (ground arith) in (r.0, ground (arith, r.1))

has_prefix-append : (p rest : Text) → has_prefix (p ++ rest) p ≡ true
unfolding has_prefix
has_prefix-append [] rest = refl
has_prefix-append (p ∷ ps) rest = ground (arith, has_prefix-append ps rest)

is_catalogue-kind : (k : SourceKind) → is_catalogue k ≡ true → k ≡ source_catalogue
is_catalogue-kind source_catalogue h = refl
is_catalogue-kind source_provider h = absurd (ground arith)

blank-empty : (t : Text) → blank t ≡ true → t ≡ []
unfolding blank
blank-empty [] h = refl
blank-empty (c ∷ t) h = absurd (ground arith)

take_over-MayTake :
    (i : Option EnrichmentSource) (c : Contribution) → take_over i c ≡ true → MayTake c i
unfolding take_over
take_over-MayTake none c h = no_owner
take_over-MayTake (some s) c h = elim (Bool-cases (blank s.slot)) [
  | inl e ↦ nameless s (blank-empty s.slot e)
  | inr named ↦ elim (Text-discrete s.slot (owner c)) [
    | yes e ↦ same_owner s e
    | no other ↦
        let cut = has_prefix-cut s.slot (text "provider:") (ground arith) in
        over_provider s cut.0 (is_catalogue-kind c.kind (ground arith)) cut.1
  ]
]

MayTake-take_over :
    (i : Option EnrichmentSource) (c : Contribution) → MayTake c i → take_over i c ≡ true
unfolding take_over blank
MayTake-take_over i c no_owner = refl
MayTake-take_over i c (nameless s e) = ground (arith, e)
MayTake-take_over i c (same_owner s e) = ground (arith, e)
MayTake-take_over i c (over_provider s name k e) =
    ground (arith, k, e, has_prefix-append (text "provider:") name)

pub take_over_iff :
    (i : Option EnrichmentSource) (c : Contribution) → (take_over i c ≡ true) ↔ MayTake c i
take_over_iff i c = (take_over-MayTake i c, MayTake-take_over i c)
