-- ===== src/Number/Defs.antt =====
-- Finite floats, the conversion from integers with its rounding, and the conversion back.
use pjsocky.Prelude.{
  ℕ, zero, suc, ◌+◌, ◌*◌, ◌/◌, ◌%◌, ◌^◌, Bool, true, false, ltb, ◌==◌, ◌&&◌, ◌||◌, if◌then◌else◌, ℤ,
  pos, negsuc,
}

-- ± mantissa * 2 ^ up / 2 ^ down
pub record Float : Type 0 where
  pub negative : Bool
  pub mantissa : ℕ
  pub up : ℕ
  pub down : ℕ

-- The significant bits of a float.
abbrev pub precision : ℕ
precision = 2 ^ 24

-- How many low bits of an `unsigned` do not fit; an `unsigned` has 32 bits, so eight at most.
unfoldable pub excess : ℕ → ℕ → ℕ
excess zero n = 0
excess (suc k) n = let more = suc (excess k (n / 2)) in if ltb n precision then 0 else more

-- Round to nearest, ties to even, when the low `k` bits are dropped.
unfoldable pub round_off : ℕ → ℕ → ℕ
round_off n k =
    let q = n / 2 ^ k in
    let r = n % 2 ^ k in
    if ltb (2 ^ k) (2 * r) || ((2 * r == 2 ^ k) && (q % 2 == 1)) then q + 1 else q

unfoldable pub of_unsigned : ℕ → Float
of_unsigned n =
    let k = excess 8 n in
    record { negative = false; mantissa = if k == 0 then n else round_off n k; up = k; down = 0 }

unfoldable pub of_int : ℤ → Float
unfolding of_unsigned
of_int (pos n) = of_unsigned n
of_int (negsuc n) = record (of_unsigned (suc n)) { negative = true }

abbrev pub magnitude : Float → ℕ
magnitude x = x.mantissa * 2 ^ x.up / 2 ^ x.down

-- (int)x drops the fraction. Where the result is no `int` the C standard leaves it undefined; that
-- value is the argument `undefined`.
unfoldable pub to_int : (Float → ℤ) → Float → ℤ
to_int undefined x =
    if x.negative
    then (if ltb (2 ^ 31) (magnitude x) then undefined x else negate (magnitude x))
    else if ltb (magnitude x) (2 ^ 31)
    then pos (magnitude x)
    else undefined x
  where
    negate : ℕ → ℤ
    negate zero = pos 0
    negate (suc n) = negsuc n
