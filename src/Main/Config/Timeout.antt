-- ===== src/Main/Config/Timeout.antt =====
-- Which write deadline PJSOCKY_WRITE_TIMEOUT_MSEC gives.
use Prim.Native.Nat.{min}
use pjsocky.Main.Config.{
  is_space, skip_space, signed, atol, atol_of, to_unsigned, write_timeout, write_timeout_default,
  positive_or,
}
use pjsocky.VideoFormat.{is_digit, digits}
use pjsocky.VideoFormat.Parse.{AreDigits, value, digits-value}
use pjsocky.Prelude.{
  ℕ, zero, suc, ◌≡◌, refl, sym, ap, ◌∙◌, Bool, true, false, none, some, List, [], ◌∷◌, ◌++◌,
  append-nil, arith, ◌==◌, if◌then◌else◌, pos,
}

abbrev pub AreSpaces : List ℕ → Type 0
AreSpaces [] = Unit {0}
AreSpaces (c ∷ s) = (is_space c ≡ true) × AreSpaces s

skip_space-append :
    (sp : List ℕ) (c : ℕ) (s : List ℕ)
    → AreSpaces sp
    → is_space c ≡ false
    → skip_space (sp ++ c ∷ s) ≡ c ∷ s
skip_space-append [] c s all h = rw h
skip_space-append (b ∷ sp) c s (g, all) h = rw (g, skip_space-append sp c s all h)

digit-not_space : (c : ℕ) → is_digit c ≡ true → is_space c ≡ false
digit-not_space c h = ground arith

digit-not_sign : (c : ℕ) → is_digit c ≡ true → ((c == b'-') ≡ false) × ((c == b'+') ≡ false)
digit-not_sign c h = ground arith

digits-all : (s : List ℕ) → AreDigits s → (digits 0 s).0 ≡ value 0 s
digits-all s all =
    ap (λ t. (digits 0 t).0) (sym (append-nil s)) ∙ ap (λ r. r.0) (digits-value 0 s [] all refl)

signed-digits : (c : ℕ) (s : List ℕ) → AreDigits (c ∷ s) → signed (c ∷ s) ≡ (false, value 0 (c ∷ s))
signed-digits c s all =
    let (minus, plus) = digit-not_sign c all.0 in rw (minus, plus, digits-all (c ∷ s) all)

signed-minus :
    (c : ℕ) (s : List ℕ) → AreDigits (c ∷ s) → signed (b'-' ∷ c ∷ s) ≡ (true, value 0 (c ∷ s))
signed-minus c s all = ap (λ n. (true, n)) (digits-all (c ∷ s) all)

positive_or-pos :
    (n : ℕ)
    → positive_or write_timeout_default (pos n)
      ≡ (if n == 0 then write_timeout_default else to_unsigned n)
positive_or-pos zero = refl
positive_or-pos (suc n) = ground arith

positive_or-minus :
    (long_max n : ℕ)
    → positive_or write_timeout_default (atol_of long_max (true, n)) ≡ write_timeout_default
unfolding atol_of
positive_or-minus long_max zero = refl
positive_or-minus long_max (suc n) = refl

-- The write deadline is 5000 ms where the variable is unset, and where it is a negative number. A
-- number of decimal digits, with any white space before it, gives the deadline if it is not zero; but
-- it is first limited to LONG_MAX and then taken modulo 2 ^ 32, so a multiple of 2 ^ 32 below
-- LONG_MAX gives a deadline of zero.
pub write_timeout-digits :
    (long_max : ℕ) (sp : List ℕ) (c : ℕ) (s : List ℕ)
    → AreSpaces sp
    → AreDigits (c ∷ s)
    → let v = value 0 (c ∷ s) in
      (write_timeout long_max none ≡ write_timeout_default)
      × (write_timeout long_max (some (sp ++ c ∷ s))
          ≡ (if min v long_max == 0 then write_timeout_default else to_unsigned (min v long_max)))
      × (write_timeout long_max (some (sp ++ b'-' ∷ c ∷ s)) ≡ write_timeout_default)
unfolding write_timeout atol atol_of
write_timeout-digits long_max sp c s spaces all =
    let trimmed = skip_space-append sp c s spaces (digit-not_space c all.0) in
    let after_signed = λ (r : Bool × ℕ). positive_or write_timeout_default (atol_of long_max r) in
    let after = λ (t : List ℕ). after_signed (signed t) in
    let minus = skip_space-append sp b'-' (c ∷ s) spaces refl in
    (
      refl,
      ap after trimmed
          ∙ ap after_signed (signed-digits c s all)
          ∙ positive_or-pos (min (value 0 (c ∷ s)) long_max),
      ap after minus
          ∙ ap after_signed (signed-minus c s all)
          ∙ positive_or-minus long_max (value 0 (c ∷ s)),
    )
