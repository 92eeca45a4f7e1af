-- ===== src/Base/Decimal.antt =====
-- `strconv.FormatInt(n, 10)` on the numbers from 0, and that it names each number once.
use Prim.Native.Nat.{ℕ, zero, suc, ◌+◌, ◌-◌, ◌*◌, ◌/◌, ◌%◌, ◌<◌}
use mathlib.Core.Path.{◌≡◌, sym, ap, ◌∙◌}
use mathlib.Core.Logic.{inl, inr}
use mathlib.Core.List.{[], ◌∷◌}
use native.Mathlib.Omega.{arith}
use abcmovies.Base.Words.{Text, ltb, if◌then◌else◌, Bool-cases}

-- The digits of `n` in front of `acc`, the last digit first.
unfoldable pub decimal_loop : ℕ → ℕ → Text → Text
decimal_loop zero n acc = acc
decimal_loop (suc f) n acc =
    let rest = decimal_loop f (n / 10) ((b'0' + n % 10) ∷ acc) in
    if ltb n 10 then (b'0' + n) ∷ acc else rest

-- `n + 1` rounds are enough: a round divides `n` by 10.
unfoldable pub decimal : ℕ → Text
unfolding decimal_loop
decimal n = decimal_loop (suc n) n []

value : ℕ → Text → ℕ
value n [] = n
value n (c ∷ cs) = value (n * 10 + (c - b'0')) cs

value-decimal_loop : (f n : ℕ) (acc : Text) → n < f → value 0 (decimal_loop f n acc) ≡ value n acc
unfolding value decimal_loop
value-decimal_loop zero n acc h = elim h [ ]
value-decimal_loop (suc f) n acc h = elim (Bool-cases (ltb n 10)) [
  | inl small ↦ rw small (ap (λ k. value k acc) (omega arith))
  | inr large ↦
      rw large
        (value-decimal_loop f (n / 10) _ (ground arith) ∙ ap (λ k. value k acc) (omega arith))
]

pub decimal-injective : (m n : ℕ) → decimal m ≡ decimal n → m ≡ n
unfolding decimal value
decimal-injective m n e =
    sym (value-decimal_loop (suc m) m [] (omega arith))
    ∙ ap (value 0) e
    ∙ value-decimal_loop (suc n) n [] (omega arith)
