-- ===== src/Dispatch/Params.antt =====
-- src/proto/dispatch.c: the readers of a command's parameters. `none` stands for PJ_EINVAL.
use pjsocky.Json.{Value, bool, number, string, find}
use pjsocky.Number.Defs.{Float, to_int}
use pjsocky.Pjlib.{Pjlib}
use pjsocky.Prelude.{String, ℕ, ◌-◌, ◌%◌, ◌^◌, Bool, Option, none, some, ℤ, pos, negsuc}

abbrev as_string : Option Value → Option String
as_string (some (string s)) = some s
as_string _ = none

abbrev as_bool : Option Value → Option Bool
as_bool (some (bool b)) = some b
as_bool _ = none

abbrev as_number : Option Value → Option Float
as_number (some (number x)) = some x
as_number _ = none

unfoldable pub get_string_member : Option Value → String → Option String
get_string_member params name = as_string (find params name)

unfoldable pub get_bool_member : Option Value → String → Option Bool
get_bool_member params name = as_bool (find params name)

abbrev to_int? : Pjlib → Option Float → Option ℤ
to_int? p none = none
to_int? p (some x) = some (to_int p.undefined_int x)

unfoldable pub get_int_member : Pjlib → Option Value → String → Option ℤ
get_int_member p params name = to_int? p (as_number (find params name))

-- A value that stays as it is where the parameter is missing or of another type.
abbrev pub or_default : {A : Type 0} → Option A → A → A
or_default none a = a
or_default (some b) a = b

-- (unsigned)code
abbrev pub to_unsigned : ℤ → ℕ
to_unsigned (pos n) = n % 2 ^ 32
to_unsigned (negsuc n) = (2 ^ 32 - 1) - n % 2 ^ 32
