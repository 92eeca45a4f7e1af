-- ===== src/Policy/Atoi.antt =====
-- `strconv.Atoi` as `policy.go` uses it: the number beside the error, on 64-bit integers.
use abcmovies.Base.{
  ℕ, ◌+◌, ◌-◌, ◌*◌, ◌^◌, Bool, true, false, ◌&&◌, [], ◌∷◌, Text, ltb, leb, eqb, if◌then◌else◌,
}
use abcmovies.Base.Int.{ℤ, pos, negsuc}

pub data Parse : Type 0 where
  parsed : ℤ → Parse
  syntax : Parse
  range : ℤ → Parse

pub data Digits : Type 0 where
  value : ℕ → Digits
  not_digits : Digits
  overflow : Digits

is_digit : ℕ → Bool
is_digit c = leb b'0' c && leb c b'9'

-- The loop of `ParseUint`: it stops at the first byte that is no digit, or that overflows.
parse_uint : ℕ → Text → Digits
unfolding is_digit
parse_uint n [] = value n
parse_uint n (c ∷ cs) =
    let rest = parse_uint (n * 10 + (c - b'0')) cs in
    if is_digit c
    then (if ltb (n * 10 + (c - b'0')) (2 ^ 64) then rest else overflow)
    else not_digits

-- `-n`
abbrev negative : ℕ → ℤ
negative n = if eqb n 0 then pos 0 else negsuc (n - 1)

-- `ParseInt`: the sign, and the bounds of `int64`.
signed : Bool → Digits → Parse
signed false (value n) = if ltb n (2 ^ 63) then parsed (pos n) else range (pos (2 ^ 63 - 1))
signed true (value n) = if leb n (2 ^ 63) then parsed (negative n) else range (negative (2 ^ 63))
signed neg not_digits = syntax
signed false overflow = range (pos (2 ^ 63 - 1))
signed true overflow = range (negative (2 ^ 63))

digits_of : Text → Digits
unfolding parse_uint
digits_of [] = not_digits
digits_of (c ∷ cs) = parse_uint 0 (c ∷ cs)

unfoldable pub atoi : Text → Parse
unfolding digits_of signed
atoi [] = syntax
atoi (c ∷ cs) =
    if eqb c b'-'
    then signed true (digits_of cs)
    else if eqb c b'+'
    then signed false (digits_of cs)
    else signed false (digits_of (c ∷ cs))

-- `n, _ := strconv.Atoi(v)`
abbrev pub number_of : Parse → ℤ
number_of (parsed z) = z
number_of syntax = pos 0
number_of (range z) = z
