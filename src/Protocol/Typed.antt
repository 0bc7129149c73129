-- ===== src/Protocol/Typed.antt =====
-- What it is for a result to have one of some shapes.
use pjsocky.Dispatch.Handler.{no_result}
use pjsocky.Json.{Members, end}
use pjsocky.Protocol.{Fields, nothing, has_one_of}
use pjsocky.World.{World, M}
use pjsocky.Prelude.{◌≡◌, refl, true, List, [], ◌∷◌, Status, Result, failure, success, ok, err}

-- A result has one of the shapes, if there is one.
abbrev pub Typed : List Fields → Result Members → Type 0
Typed fs (ok ms) = has_one_of fs ms ≡ true
Typed fs (err e) = Unit {0}

status-Typed : (s : Status) → Typed (nothing ∷ []) (elim s [ success ↦ ok end | failure e ↦ err e ])
status-Typed success = refl
status-Typed (failure e) = tt

pub no_result-Typed : (m : M Status) (w : World) → Typed (nothing ∷ []) (no_result m w).0
no_result-Typed m w = status-Typed (m w).0
