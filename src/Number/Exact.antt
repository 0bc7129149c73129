-- ===== src/Number/Exact.antt =====
-- Which integers survive the conversion to a float.
use pjsocky.Number.Defs.{
  Float, precision, excess, round_off, of_unsigned, of_int, magnitude, to_int,
}
use native.Mathlib.Decide.{dec_lt}
use pjsocky.Prelude.{
  ℕ, zero, suc, ◌*◌, ◌/◌, ◌^◌, ◌≤◌, ◌<◌, ◌≡◌, refl, ◌↔◌, Bool, true, false, arith, ◌==◌,
  if◌then◌else◌, ℤ, pos,
}

excess-small : (k n : ℕ) → n < precision → excess k n ≡ 0
unfolding excess
excess-small zero n h = refl
excess-small (suc k) n h = ground arith

excess-le : (k n : ℕ) → excess k n ≤ k
unfolding excess
excess-le zero n = omega arith
excess-le (suc k) n = ground (arith, excess-le k (n / 2))

small : (n : ℕ) → n < precision → magnitude (of_unsigned n) ≡ n
unfolding of_unsigned
small n h = rw (excess-small 8 n h) (omega arith)

two_power : (k : ℕ) → k ≤ 8 → (0 < 2 ^ k) × (2 ^ k ≤ 256)
two_power zero h = omega arith
two_power (suc zero) h = omega arith
two_power (suc (suc zero)) h = omega arith
two_power (suc (suc (suc zero))) h = omega arith
two_power (suc (suc (suc (suc zero)))) h = omega arith
two_power (suc (suc (suc (suc (suc zero))))) h = omega arith
two_power (suc (suc (suc (suc (suc (suc zero)))))) h = omega arith
two_power (suc (suc (suc (suc (suc (suc (suc zero))))))) h = omega arith
two_power (suc (suc (suc (suc (suc (suc (suc (suc zero)))))))) h = omega arith
two_power (suc (suc (suc (suc (suc (suc (suc (suc (suc k))))))))) h = absurd (omega arith)

round_off-ge : (n k : ℕ) → n / 2 ^ k ≤ round_off n k
unfolding round_off
round_off-ge n k = ground arith

quotient_pos : (n d : ℕ) → 0 < d → d ≤ n → 0 < n / d
quotient_pos n d h k = grind arith

product_pos : (a b : ℕ) → 0 < a → 0 < b → 0 < a * b / 1
product_pos a b h k = grind arith

chosen_pos : (b : Bool) (x y : ℕ) → 0 < x → 0 < y → 0 < (if b then x else y)
chosen_pos true x y h k = h
chosen_pos false x y h k = k

large : (n : ℕ) → precision ≤ n → 0 < magnitude (of_unsigned n)
unfolding of_unsigned
large n h =
    let (positive, bounded) = two_power (excess 8 n) (excess-le 8 n) in
    product_pos _ (2 ^ excess 8 n)
      (chosen_pos (excess 8 n == 0) n (round_off n (excess 8 n)) (omega arith) (
        omega (
          arith,
          round_off-ge n (excess 8 n),
          quotient_pos n (2 ^ excess 8 n) positive (omega (arith, bounded)),
        )))
      positive

-- A counter below 2 ^ 24 keeps its value as a float, and a counter of any size is zero as a float
-- exactly if it is zero.
of_unsigned_faithful :
    (n : ℕ)
    → (n < precision → magnitude (of_unsigned n) ≡ n) × ((magnitude (of_unsigned n) ≡ 0) ↔ (n ≡ 0))
of_unsigned_faithful n = (
  small n,
  elim (dec_lt n precision) [
    | yes h ↦ rw (small n h) ((λ e. e), (λ e. e))
    | no h ↦ ((λ e. absurd (omega (arith, large n (omega arith)))), (λ e. absurd (omega arith)))
  ],
)

-- An `int` in that range survives the way out and back in.
pub to_int-of_int :
    (undefined : Float → ℤ) (n : ℕ) → n < precision → to_int undefined (of_int (pos n)) ≡ pos n
unfolding of_int to_int
to_int-of_int undefined n h = rw (small n h) (ground arith)
