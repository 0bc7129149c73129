-- ===== src/Dispatch/Handler.antt =====
-- src/proto/dispatch.c and dispatch.h: what a command handler is. A handler returns the members of
-- "result", which are used only if it succeeds.
use pjsocky.Json.{Value, Members, end, add_number}
use pjsocky.Number.Defs.{of_int}
use pjsocky.World.{M, pure}
use pjsocky.Prelude.{String, Option, ℤ, Status, Result, failure, success, einval, ok, err}

abbrev pub Handler : Type 0
Handler = Option Value → M (Result Members)

-- A handler that has no result but a status.
abbrev pub no_result : M Status → M (Result Members)
no_result m w = let r = m w in (elim r.0 [ success ↦ ok end | failure e ↦ err e ], r.1)

abbrev pub invalid_params : M (Result Members)
invalid_params = pure (err einval)

-- One number member, or the error.
abbrev pub id_result : String → Result ℤ → Result Members
id_result name (err e) = err e
id_result name (ok id) = ok (add_number end name (of_int id))
