-- ===== src/Tests/Policy.antt =====
-- core/internal/policy on the instance policies of an operator.
use abcmovies.Base.{
  ℕ, ◌≤◌, ◌≡◌, refl, inr, inl, true, [], ◌∷◌, text, Text-discrete, ◌==◌, All, In, insert, lookup,
}
use abcmovies.Base.Int.{pos}
use abcmovies.Policy.Key
use abcmovies.Policy.Atoi.{atoi}
use abcmovies.Policy.Limits.{
  Set, Formats, unknown_limit, with_overlay, streams, accepts, validate, parse_instance,
}
use abcmovies.Policy.Validation.{parse_instance-recognised, recognised_keys, streams-parse_instance}

abbrev pub formats : Formats
formats = record {
  is_blank = λ v. v == [];
  positive_float = λ v. v == text "2.5";
  positive_duration = λ v. v == text "200ms";
}

abbrev raw_policy : Set
raw_policy = (Key.concurrent_streams, text "5") ∷ (Key.bandwidth, text "40Mbps") ∷ []

abbrev parsed_policy : Set
parsed_policy =
    (Key.concurrent_streams, text "5")
    ∷ (Key.bandwidth, text "40Mbps")
    ∷ (Key.encode, text "disabled")
    ∷ []

program : Unit {0}
unfolding parse_instance validate accepts atoi streams Text-discrete with_overlay insert lookup
program = tt

raw_policy_parses : parse_instance formats raw_policy ≡ inr parsed_policy
unfolding program
raw_policy_parses = refl

-- A key with a typo is refused.
typo_refused :
    parse_instance formats ((text "concurrentStream", text "5") ∷ [])
    ≡ inl (unknown_limit (text "concurrentStream"))
unfolding program
typo_refused = refl

parse_instance-recognised_example : All (λ p. In p.0 recognised_keys) raw_policy
parse_instance-recognised_example =
    parse_instance-recognised formats raw_policy parsed_policy raw_policy_parses

streams-parse_instance_example : (n : ℕ) × (streams parsed_policy ≡ (pos n, true)) × (1 ≤ n)
streams-parse_instance_example =
    streams-parse_instance formats raw_policy parsed_policy raw_policy_parses
