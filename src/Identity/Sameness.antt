-- ===== src/Identity/Sameness.antt =====
-- core/internal/identity/proof.go: what an unchanged proof says.
use abcmovies.Base.{
  ◌≡◌, refl, sym, ap, ◌∙◌, true, List, [], ◌∷◌, Text, sort_strings, ◌↔◌, times, times-sort_strings,
  IsSorted-unique, sort_strings-IsSorted, arith,
}
use abcmovies.Identity.Title.{Options, normalize_title}
use abcmovies.Identity.Proof.{Proof, id_keys, same_strings, same_id_set, same_proof}

same_strings-equal : (l m : List Text) → same_strings l m ≡ true → l ≡ m
unfolding same_strings
same_strings-equal [] [] h = refl
same_strings-equal [] (t ∷ m) h = absurd (ground arith)
same_strings-equal (s ∷ l) [] h = absurd (ground arith)
same_strings-equal (s ∷ l) (t ∷ m) h = ground (arith, same_strings-equal l m)

equal-same_strings : (l : List Text) → same_strings l l ≡ true
unfolding same_strings
equal-same_strings [] = refl
equal-same_strings (s ∷ l) = ground (arith, equal-same_strings l)

-- A stored proof counts as unchanged exactly when kind, normalized title and year are the same and
-- both sides assert each external id equally often, in whatever order.
pub same_proof_iff :
    (o : Options) (a b : Proof)
    → (same_proof o a b ≡ true) ↔ (
        (a.kind ≡ b.kind)
        × (normalize_title o a.title ≡ normalize_title o b.title)
        × (a.year ≡ b.year)
        × ((k : Text) → times k (id_keys a.external_ids) ≡ times k (id_keys b.external_ids)))
unfolding same_proof same_id_set
same_proof_iff o a b =
    let xs = id_keys a.external_ids in
    let ys = id_keys b.external_ids in
    (
      λ h.
          let e : sort_strings xs ≡ sort_strings ys =
            ground (arith, same_strings-equal (sort_strings xs) (sort_strings ys)) in
          (
            ground arith,
            ground arith,
            ground arith,
            λ k. sym (times-sort_strings k xs) ∙ ap (times k) e ∙ times-sort_strings k ys,
          ),
      λ (kind, title, year, counts).
          let e : sort_strings xs ≡ sort_strings ys =
            IsSorted-unique (sort_strings xs) (sort_strings ys) (sort_strings-IsSorted xs)
              (sort_strings-IsSorted ys)
              (λ k. times-sort_strings k xs ∙ counts k ∙ sym (times-sort_strings k ys)) in
          ground (arith, kind, title, year, e, equal-same_strings (sort_strings ys)),
    )

pub same_proof_self : (o : Options) (a : Proof) → same_proof o a a ≡ true
unfolding same_proof same_id_set
same_proof_self o a = ground (arith, equal-same_strings (sort_strings (id_keys a.external_ids)))
