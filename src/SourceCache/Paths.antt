-- ===== src/SourceCache/Paths.antt =====
-- The keys of the store in core/internal/sourcecache/sourcecache.go: `provider/account/native`, with no
-- escape, and `provider/account/_sync-manifest` for the completion marker.
use abcmovies.Base.{
  ℕ, ◌≡◌, refl, ap, ◌∙◌, Bool, true, false, ◌&&◌, [], ◌∷◌, ◌++◌, not, ◌||◌, ◌≢◌, Text, text,
  Text-discrete, ◌==◌, eqb, if◌then◌else◌, arith,
}
use abcmovies.Enrichment.Merge.{has_prefix}
use abcmovies.SourceCache.Table.{ItemKey, belongs}

abbrev slash : ℕ
slash = 47

abbrev pub slash_free : Text → Bool
slash_free [] = true
slash_free (c ∷ cs) = if eqb c slash then false else slash_free cs

abbrev pub joined : Text → Text → Text
joined a b = a ++ (slash ∷ b)

-- The key of an item, the prefix of an account's keys, and the key of its completion marker.
unfoldable pub item_path : ItemKey → Text
item_path k = joined k.provider (joined k.account_id k.native_id)

unfoldable pub account_prefix : Text → Text → Text
account_prefix provider account_id = joined provider (joined account_id [])

unfoldable pub manifest_path : Text → Text → Text
manifest_path provider account_id = joined provider (joined account_id (text "_sync-manifest"))

joined-injective :
    (a b x y : Text)
    → slash_free a ≡ true
    → slash_free b ≡ true
    → joined a x ≡ joined b y
    → (a ≡ b) × (x ≡ y)
joined-injective [] [] x y h k e = (refl, ground arith)
joined-injective [] (d ∷ b) x y h k e = absurd (ground arith)
joined-injective (c ∷ a) [] x y h k e = absurd (ground arith)
joined-injective (c ∷ a) (d ∷ b) x y h k e = ground (arith, joined-injective a b x y)

has_prefix-joined :
    (a b x y : Text)
    → slash_free a ≡ true
    → slash_free b ≡ true
    → has_prefix (joined a x) (joined b y) ≡ ((b == a) && has_prefix x y)
unfolding has_prefix Text-discrete
has_prefix-joined [] [] x y h k = ground arith
has_prefix-joined [] (d ∷ b) x y h k = ground arith
has_prefix-joined (c ∷ a) [] x y h k = ground arith
has_prefix-joined (c ∷ a) (d ∷ b) x y h k = ground (arith, has_prefix-joined a b x y)

-- `strings.HasSuffix`
unfoldable pub has_suffix : Text → Text → Bool
has_suffix [] p = p == []
has_suffix (c ∷ s) p = (c ∷ s) == p || has_suffix s p

abbrev pub manifest_suffix : Text
manifest_suffix = text "/_sync-manifest"

-- A key whose provider and account have no slash and that the listing does not take for a marker.
abbrev pub is_plain : ItemKey → Bool
is_plain k =
    slash_free k.provider
    && (slash_free k.account_id && not (has_suffix (item_path k) manifest_suffix))

-- Under the prefix of an account are the keys of its items.
pub has_prefix-item_path :
    (p a : Text) (k : ItemKey)
    → slash_free p ≡ true
    → slash_free a ≡ true
    → is_plain k ≡ true
    → has_prefix (item_path k) (account_prefix p a) ≡ belongs p a k
unfolding item_path account_prefix has_prefix
has_prefix-item_path p a k f g plain = ground (
  arith,
  has_prefix-joined k.provider p (joined k.account_id k.native_id) (joined a []),
  has_prefix-joined k.account_id a k.native_id [],
)

-- Two plain keys of the store are of one item only if the items are one.
item_path-injective :
    (j k : ItemKey) → is_plain j ≡ true → is_plain k ≡ true → item_path j ≡ item_path k → j ≡ k
unfolding item_path
item_path-injective j k f g e =
    let (p, rest) =
      joined-injective j.provider k.provider _ _ (ground (arith, f)) (ground (arith, g)) e in
    let (a, n) =
      joined-injective j.account_id k.account_id _ _ (ground (arith, f)) (ground (arith, g)) rest in
    cc

has_suffix-append : (a p : Text) → has_suffix (a ++ p) p ≡ true
unfolding has_suffix
has_suffix-append [] [] = ground arith
has_suffix-append [] (c ∷ p) = ground arith
has_suffix-append (c ∷ a) p = ground (arith, has_suffix-append a p)

joined-append : (a b x : Text) → joined a (joined b x) ≡ joined a b ++ (slash ∷ x)
joined-append [] b x = refl
joined-append (c ∷ a) b x = ap (λ t. c ∷ t) (joined-append a b x)

-- No plain key is a marker's.
item_path-manifest_path :
    (k : ItemKey) (p a : Text) → is_plain k ≡ true → item_path k ≢ manifest_path p a
unfolding manifest_path
item_path-manifest_path k p a plain e =
    let ends : has_suffix (item_path k) manifest_suffix ≡ true =
      ap (λ t. has_suffix t manifest_suffix) (e ∙ joined-append p a (text "_sync-manifest"))
      ∙ has_suffix-append (joined p a) manifest_suffix in
    ground (arith, plain, ends)
