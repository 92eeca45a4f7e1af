-- ===== src/ItemRegistry/Claims.antt =====
-- `unionClaims` and `unionStrings` of core/internal/itemregistry/registry.go.
use abcmovies.Base.{
  Bool, true, false, not, ◌&&◌, List, [], ◌∷◌, ◌++◌, Text, ◌==◌, if◌then◌else◌, Option, none, some,
  contains, sort_strings,
}
use abcmovies.Identity.Match.{ExternalId, usable}
use abcmovies.ItemRegistry.Records.{IdClaim}

-- The keys `namespace + "\x00" + value` of a claim and of an id.
abbrev pub claim_key : IdClaim → Text
claim_key c = c.namespace ++ (0 ∷ c.value)

abbrev pub probe_key : ExternalId → Text
probe_key x = x.namespace ++ (0 ∷ x.value)

unfoldable pub known : Text → List IdClaim → Bool
known k [] = false
known k (c ∷ cs) = if claim_key c == k then true else known k cs

abbrev pub add_supplier : Text → IdClaim → IdClaim
add_supplier supplier c =
    if contains c.suppliers supplier
    then c
    else record c { suppliers = sort_strings (c.suppliers ++ (supplier ∷ [])) }

-- `out[index[key]]`: the index holds the last claim with a key.
unfoldable pub confirm : Text → Text → List IdClaim → List IdClaim
confirm k supplier [] = []
confirm k supplier (c ∷ cs) =
    let rest = confirm k supplier cs in
    if claim_key c == k && not (known k cs) then add_supplier supplier c ∷ cs else c ∷ rest

-- One turn of the loop.
unfoldable pub union_claim : List IdClaim → Option ExternalId → Text → List IdClaim
union_claim out none supplier = out
union_claim out (some x) supplier =
    if not (usable (some x))
    then out
    else if known (probe_key x) out
    then confirm (probe_key x) supplier out
    else out
      ++ (record { namespace = x.namespace; value = x.value; suppliers = supplier ∷ [] } ∷ [])

unfoldable pub union_claims : List IdClaim → List (Option ExternalId) → Text → List IdClaim
union_claims base [] supplier = base
union_claims base (x ∷ add) supplier = union_claims (union_claim base x supplier) add supplier

-- The members of `add` that are not seen yet, each once.
unfoldable pub unseen : List Text → List Text → List Text
unseen seen [] = []
unseen seen (s ∷ add) =
    let old = contains seen s in
    let rest = unseen (if old then seen else s ∷ seen) add in if old then rest else s ∷ rest

unfoldable pub union_strings : List Text → List Text → List Text
union_strings base add = base ++ sort_strings (unseen base add)
