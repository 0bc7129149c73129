-- ===== src/Json/Tests.antt =====
-- A run of the conversions of numbers.
use pjsocky.Number.Defs.{of_int, to_int}
use pjsocky.Number.Exact.{to_int-of_int}
use pjsocky.Prelude.{◌≡◌, arith, pos}

to_int_486 : to_int (λ x. pos 0) (of_int (pos 486)) ≡ pos 486
to_int_486 = to_int-of_int (λ x. pos 0) 486 (omega arith)
