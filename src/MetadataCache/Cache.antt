-- ===== src/MetadataCache/Cache.antt =====
-- core/internal/metadatacache/metadatacache.go: the cache over its store. The rows under `meta/record/`
-- and `meta/alias/` are two tables without their prefixes; the store does not fail.
use abcmovies.Base.{
  ℕ, Bool, false, not, ◌&&◌, List, [], ◌∷◌, Text, ◌==◌, eqb, blank, if◌then◌else◌, Option, ◌≡◌,
  none, some, ◌⊎◌, inl, inr, text_key, lookup, insert, delete,
}

-- protobuf's JSON form of a record.
pub record Codec (M : Type 0) : Type 0 where
  pub marshal : M → Option Text
  pub unmarshal : Text → Option M

-- What the JSON form promises: a record that was encoded is decoded as it was.
abbrev pub RoundTrips : {M : Type 0} → Codec M → Type 0
RoundTrips {M} c = (m : M) (blob : Text) → c.marshal m ≡ some blob → c.unmarshal blob ≡ some m

pub record Cache : Type 0 where
  pub records : List (Text × Text)
  pub aliases : List (Text × Text)

unfoldable pub new_cache : Cache
new_cache = record { records = []; aliases = [] }

pub data Fault : Type 0 where
  not_namespaced : Text → Fault
  nil_metadata : Text → Fault
  not_encoded : Text → Fault
  no_record : Text → Text → Fault

-- `strings.Cut` at a byte: what stands before its first occurrence and what stands after.
unfoldable pub cut : ℕ → Text → Option (Text × Text)
cut sep [] = none
cut sep (c ∷ cs) =
    let rest = cut sep cs in
    if eqb c sep
    then some ([], cs)
    else elim rest [ none ↦ none | some (before, after) ↦ some (c ∷ before, after) ]

unfoldable pub is_external_id : Text → Bool
is_external_id id = elim (cut b':' id) [
  | none ↦ false
  | some (ns, val) ↦ not (blank ns) && not (blank val)
]

-- A step behind `validateExternalID`.
abbrev pub validated : {A : Type 0} → Text → Fault ⊎ A → Fault ⊎ A
validated id next = if is_external_id id then next else inl (not_namespaced id)

-- The rows whose keys the store lists.
unfoldable pub keys : List (Text × Text) → List Text
keys [] = []
keys ((key, blob) ∷ rows) = key ∷ keys rows

-- The loop of `DeleteRecord` over the alias rows.
unfoldable pub purge : Text → List Text → List (Text × Text) → List (Text × Text)
purge ref [] rows = rows
purge ref (key ∷ rest) rows = elim (lookup key rows) [
  | none ↦ purge ref rest rows
  | some blob ↦ purge ref rest (if blob == ref then delete key rows else rows)
]

-- `ListAliases`: a row that is gone when it is read is left out.
unfoldable pub list_aliases_of : List Text → List (Text × Text) → List (Text × Text)
list_aliases_of [] rows = []
list_aliases_of (key ∷ rest) rows =
    let others = list_aliases_of rest rows in
    elim (lookup key rows) [ none ↦ others | some blob ↦ insert key blob others ]

unfoldable pub list_aliases : Cache → List (Text × Text)
list_aliases c = list_aliases_of (keys c.aliases) c.aliases

unfoldable pub list_records : Cache → List Text
list_records c = keys c.records

unfoldable pub delete_record : Cache → Text → Fault ⊎ Cache
delete_record c ref = validated ref (
    inr (record { records = delete ref c.records; aliases = purge ref (keys c.aliases) c.aliases }))

module _ {M : Type 0} (codec : Codec M) where
  -- The record of a valid reference; a corrupt row is a miss.
  unfoldable pub read_record : Cache → Text → Option M
  read_record c ref = elim (lookup ref c.records) [ none ↦ none | some blob ↦ codec.unmarshal blob ]

  unfoldable pub get_record : Cache → Text → Fault ⊎ Option M
  get_record c ref = validated ref (inr (read_record c ref))

  -- A nil pointer is `none`.
  unfoldable pub put_record : Cache → Text → Option M → Fault ⊎ Cache
  put_record c ref m = validated ref (elim m [
    | none ↦ inl (nil_metadata ref)
    | some m ↦ elim (codec.marshal m) [
      | none ↦ inl (not_encoded ref)
      | some blob ↦ inr (record { records = insert ref blob c.records; aliases = c.aliases })
    ]
  ])

  -- Where an id has no alias row: its own record.
  abbrev pub own_record : Cache → Text → Option Text
  own_record c id = elim (read_record c id) [ none ↦ none | some _ ↦ some id ]

  -- A corrupt alias is ignored.
  unfoldable pub resolve_ref : Cache → Text → Fault ⊎ Option Text
  resolve_ref c id = validated id (
      inr (elim (lookup id c.aliases) [
        | none ↦ own_record c id
        | some ref ↦ if is_external_id ref then some ref else none
      ]))

  unfoldable pub link_alias : Cache → Text → Text → Fault ⊎ Cache
  link_alias c alias ref = validated alias (
      validated ref (elim (read_record c ref) [
        | none ↦ inl (no_record alias ref)
        | some _ ↦ inr (record { records = c.records; aliases = insert alias ref c.aliases })
      ]))
