-- ===== src/Identity/Evidence.antt =====
-- core/internal/identity/match.go: what a merge rests on, said without the loops of the code.
use abcmovies.Base.{
  ◌⊎◌, ◌↔◌, ◌<◌, ◌≡◌, refl, sym, ◌∙◌, Bool, true, false, not, ◌&&◌, ◌||◌, List, Text, blank, eqb,
  Option, none, some, any, arith, In, any-In, any-found, contains-In, In-contains,
}
use abcmovies.Identity.Title.{Options, normalize_title}
use abcmovies.Identity.Match.{
  ExternalId, TitleMetadata, Item, Signal, signal_none, usable, same_assertion, corroboration_match,
  same_kind, title_eq, titles_agree, years_match, shares_any, first_signal, decide, runtime_minutes,
  kind_movie,
}
use abcmovies.Identity.Symmetry.{forms, titles_agree-forms, corroboration_match-pairs}

abbrev Shared : List Text → List Text → Type 0
Shared xs ys = (s : Text) × In s xs × In s ys

-- Both sides assert one id, whose namespace and value are not empty.
abbrev pub SharesId : Item → Item → Type 0
SharesId a b =
    (x : ExternalId) × (usable (some x) ≡ true)
    × In (some x) a.external_ids
    × In (some x) b.external_ids

abbrev pub SharesTitle : Options → Item → Item → Type 0
SharesTitle o a b =
    (s : Text) × In s (forms a)
    × ((t : Text) × In t (forms b)
        × (normalize_title o s ≡ normalize_title o t)
        × (blank (normalize_title o s) ≡ false))

abbrev pub SharesSignal : TitleMetadata → TitleMetadata → Type 0
SharesSignal a b =
    Shared a.directors b.directors
    ⊎ (Shared a.cast b.cast
        ⊎ (((blank a.original_language ≡ false) × (a.original_language ≡ b.original_language))
            ⊎ ((0 < runtime_minutes a) × (runtime_minutes a ≡ runtime_minutes b))))

-- One known kind, and an id in common or a title, for movies a known year, and a signal in common.
abbrev pub SameWork : Options → Item → Item → Type 0
SameWork o a b =
    ((0 < a.kind) × (a.kind ≡ b.kind))
    × (SharesId a b
        ⊎ (SharesTitle o a b
            × (a.kind ≡ kind_movie → (0 < a.metadata.year) × (a.metadata.year ≡ b.metadata.year))
            × SharesSignal a.metadata b.metadata))

assertion-equal :
    (x y : Option ExternalId)
    → (usable x && same_assertion x y) ≡ true
    → (z : ExternalId) × (usable (some z) ≡ true) × (some z ≡ x) × (some z ≡ y)
assertion-equal none y h = absurd (ground arith)
assertion-equal (some x) none h = absurd (ground arith)
assertion-equal (some x) (some y) h =
    let n : x.namespace ≡ y.namespace = ground arith in
    let v : x.value ≡ y.value = ground arith in
    (x, ground arith, refl, λ i. some (record { namespace = n i; value = v i }))

corroboration_match-SharesId :
    (a b : Item) → corroboration_match a.external_ids b.external_ids ≡ true → SharesId a b
corroboration_match-SharesId a b h =
    let (x, i, hit) =
      any-found _ a.external_ids
        (sym (corroboration_match-pairs a.external_ids b.external_ids) ∙ h) in
    let (y, j, hit') = any-found _ b.external_ids hit in
    let (z, u, e, e') = assertion-equal x y hit' in (z, u, rw e i, rw e' j)

SharesId-corroboration_match :
    (a b : Item) → SharesId a b → corroboration_match a.external_ids b.external_ids ≡ true
SharesId-corroboration_match a b (x, u, i, j) =
    corroboration_match-pairs a.external_ids b.external_ids
    ∙ any-In _ (some x) a.external_ids i (any-In _ (some x) b.external_ids j (ground arith))

titles_agree_iff : (o : Options) (a b : Item) → (titles_agree o a b ≡ true) ↔ SharesTitle o a b
unfolding title_eq
titles_agree_iff o a b =
    let agrees : Text → Text → Bool = λ s t. title_eq o s t in
    let among : Text → Bool = λ s. any (agrees s) (forms b) in
    (
      λ h.
          let (s, i, hit) = any-found among (forms a) (sym (titles_agree-forms o a b) ∙ h) in
          let (t, j, hit') = any-found (agrees s) (forms b) hit in
          (s, i, (t, j, ground arith, ground arith)),
      λ (s, i, (t, j, e, full)).
          titles_agree-forms o a b
          ∙ any-In among s (forms a) i (any-In (agrees s) t (forms b) j (ground arith)),
    )

shares_any_iff : (xs ys : List Text) → (shares_any xs ys ≡ true) ↔ Shared xs ys
unfolding shares_any
shares_any_iff xs ys = (
  λ h. let (s, i, hit) = any-found _ ys h in (s, contains-In xs s hit, i),
  λ (s, i, j). any-In _ s ys j (In-contains xs s i),
)

abbrev is_signal : Signal → Bool
is_signal signal_none = false
is_signal found = true

first_signal_iff : (a b : TitleMetadata) → (is_signal (first_signal a b) ≡ true) ↔ SharesSignal a b
unfolding first_signal
first_signal_iff a b =
    ground (arith, shares_any_iff a.directors b.directors, shares_any_iff a.cast b.cast)

merge-decide :
    (o : Options) (a b : Item)
    → (decide o a b).merge ≡ (
        same_kind a.kind b.kind
        && (corroboration_match a.external_ids b.external_ids
            || (titles_agree o a b
                && ((not (eqb a.kind kind_movie) || years_match a.metadata.year b.metadata.year)
                    && is_signal (first_signal a.metadata b.metadata)))))
unfolding decide
merge-decide o a b = ground arith

-- Two items merge exactly when they are the same work by the written rule: one known kind, and
-- either an external id in common or a normalized title, for movies a known and equal year, and a
-- corroborating signal in common.
pub merge-decide_iff : (o : Options) (a b : Item) → ((decide o a b).merge ≡ true) ↔ SameWork o a b
unfolding same_kind years_match
merge-decide_iff o a b = ground (
  arith,
  merge-decide o a b,
  corroboration_match-SharesId a b,
  SharesId-corroboration_match a b,
  titles_agree_iff o a b,
  first_signal_iff a.metadata b.metadata,
)
