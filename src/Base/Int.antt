-- ===== src/Base/Int.antt =====
-- Go's `int` as an integer: constructors, the order, and the sign.
use Prim.Native.Nat.{ℕ, ◌≤◌}
use mathlib.Core.Bool.{Bool, true, false}
use abcmovies.Base.Words.{ltb, leb}

-- `negsuc n` is -(n + 1).
pub data ℤ : Type 0 where
  pos : ℕ → ℤ
  negsuc : ℕ → ℤ

-- `a < b`
abbrev pub ltb_ℤ : ℤ → ℤ → Bool
ltb_ℤ (pos a) (pos b) = ltb a b
ltb_ℤ (pos a) (negsuc b) = false
ltb_ℤ (negsuc a) (pos b) = true
ltb_ℤ (negsuc a) (negsuc b) = ltb b a

-- `n >= z` for the length `n` of a slice.
abbrev pub at_least : ℕ → ℤ → Bool
at_least n (pos k) = leb k n
at_least n (negsuc k) = true

-- The excess of `n` over `z`; a length never is below a negative number.
abbrev pub Exceeds : ℤ → ℕ → Type 0
Exceeds (pos k) n = n ≤ k
Exceeds (negsuc k) n = ⊥
