-- ===== src/Policy/Limits.antt =====
-- Recorded policies as maps from limit types to values, and the concurrent-stream limit.
use abcmovies.Base.{
  ◌⊎◌, inl, inr, Bool, true, false, not, ◌&&◌, ◌||◌, Option, none, some, List, [], ◌∷◌, Text, text,
  ◌==◌, leb, if◌then◌else◌, lookup, insert, text_key,
}
use abcmovies.Base.Int.{ℤ, pos, ltb_ℤ}
use abcmovies.Policy.Key
use abcmovies.Policy.Atoi.{Parse, parsed, atoi, number_of}

-- `Set`, one limit-type → value map.
abbrev pub Set : Type 0
Set = List (Text × Text)

abbrev pub defaults : Set
defaults =
    (Key.concurrent_streams, text "3")
    ∷ (Key.bandwidth, text "unlimited")
    ∷ (Key.encode, text "disabled")
    ∷ []

-- `s.With(overlay)`: every pair of the overlay is written over a copy of `s`.
unfoldable pub with_overlay : Set → Set → Set
with_overlay s [] = s
with_overlay s ((k, v) ∷ overlay) = insert k v (with_overlay s overlay)

-- `s.Streams()`: the number, and whether the key is there.
unfoldable pub streams : Set → ℤ × Bool
streams s = elim (lookup Key.concurrent_streams s) [
  | none ↦ (pos 0, false)
  | some v ↦ (number_of (atoi v), true)
]

-- The lesser of two limits, where `false` means that none is declared.
unfoldable pub lesser_limit : ℤ × Bool → ℤ × Bool → ℤ
lesser_limit (limit, has_limit) (cap_limit, has_cap) =
    if has_cap && (not has_limit || ltb_ℤ cap_limit limit)
    then cap_limit
    else if not has_limit
    then pos 0
    else limit

unfoldable pub effective_account_limit : Set → Set → ℤ
unfolding lesser_limit
effective_account_limit account_policy provider_cap =
    lesser_limit (streams account_policy) (streams provider_cap)

-- The standard library's readings of other formats, which only `validate` consults.
pub record Formats : Type 0 where
  -- `strings.TrimSpace(v) == ""`
  pub is_blank : Text → Bool
  -- `strconv.ParseFloat(v, 64)` succeeds with a positive number
  pub positive_float : Text → Bool
  -- `time.ParseDuration(v)` succeeds with a positive duration
  pub positive_duration : Text → Bool

-- `err == nil && n >= 1`
unfoldable pub positive_int : Parse → Bool
positive_int (parsed (pos n)) = leb 1 n
positive_int p = false

-- `err == nil && n >= 0`
unfoldable pub nonnegative_int : Parse → Bool
nonnegative_int (parsed (pos n)) = true
nonnegative_int p = false

-- `strings.CutSuffix(v, suffix)`
unfoldable pub cut_suffix : Text → Text → Option Text
cut_suffix [] suffix = if [] == suffix then some [] else none
cut_suffix (c ∷ v) suffix =
    let rest = cut_suffix v suffix in
    if (c ∷ v) == suffix then some [] else elim rest [ none ↦ none | some front ↦ some (c ∷ front) ]

unfoldable pub valid_bandwidth : Text → Bool
unfolding cut_suffix positive_int
valid_bandwidth v = elim (cut_suffix v (text "Mbps")) [
  | none ↦ false
  | some front ↦ not (front == []) && positive_int (atoi front)
]

pub data Error : Type 0 where
  malformed : Text → Text → Error
  unknown_limit : Text → Error

module _ (formats : Formats) where
  -- Whether one value passes the case of its key; `none` for a key that has no case.
  unfoldable pub accepts : Text → Text → Option Bool
  unfolding positive_int nonnegative_int valid_bandwidth
  accepts k v =
      if k == Key.concurrent_streams
      then some (positive_int (atoi v))
      else if k == Key.bandwidth
      then some (v == text "unlimited" || valid_bandwidth v)
      else if k == Key.encode
      then some (v == text "enabled" || v == text "disabled")
      else if k == Key.time_window || k == Key.member_monthly_quota
      then some (not (formats.is_blank v))
      else if k == Key.pacing_requests_per_sec
      then some (formats.positive_float v)
      else if k == Key.pacing_max_pulls
      then some (positive_int (atoi v))
      else if k == Key.pacing_delay
      then some (formats.positive_duration v)
      else if k == Key.pacing_retries
      then some (nonnegative_int (atoi v))
      else none

  -- The first error of the loop over the map, or `none`.
  unfoldable pub validate : Set → Option Error
  validate [] = none
  validate ((k, v) ∷ raw) = elim (accepts k v) [
    | none ↦ some (unknown_limit k)
    | some false ↦ some (malformed k v)
    | some true ↦ validate raw
  ]

  unfoldable pub parse_instance : Set → Error ⊎ Set
  parse_instance raw = elim (validate raw) [
    | none ↦ inr (with_overlay defaults raw)
    | some e ↦ inl e
  ]

  unfoldable pub parse_overlay : Set → Error ⊎ Set
  parse_overlay raw = elim (validate raw) [ none ↦ inr raw | some e ↦ inl e ]
