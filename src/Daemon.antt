-- ===== src/Daemon.antt =====
-- The daemon as a whole: turns of the server's loop (src/proto/server.c), and between them what pjsua-lib
-- calls: the callbacks of src/account.c, src/call.c and src/im.c, and the timers. Each is one step.
pub mod Calls
pub mod Invariant
pub mod Said
mod Tests
use pjsocky.Account.{on_reg_state2}
use pjsocky.Call.Callbacks.Watched.{Step}
use pjsocky.Im.{on_pager2, on_pager_status2, on_typing2}
use pjsocky.Pjlib.{Pjlib}
use pjsocky.Server.Loop.{Turn, Server, turn}
use pjsocky.World.{World}
use pjsocky.Prelude.{String, ℕ, Bool, ℤ}

pub data Happens (p : Pjlib) : Server → Server → Type 0 where
  server_turn : (t : Turn) (s : Server) → Happens p s (turn p t s)
  call_step : (s : Server) (v : World) → Step p s.world v → Happens p s (record s { world = v })
  registration :
      (acc_id : ℤ) (renew : Bool) (s : Server)
      → Happens p s (record s { world = (on_reg_state2 p acc_id renew s.world).1 })
  message :
      (from to mime_type body : String) (s : Server)
      → Happens p s (record s { world = on_pager2 p from to mime_type body s.world })
  message_status :
      (to body : String) (status : ℕ) (reason : String) (s : Server)
      → Happens p s (record s { world = on_pager_status2 p to body status reason s.world })
  typing_indication :
      (from to : String) (is_typing : Bool) (s : Server)
      → Happens p s (record s { world = on_typing2 p from to is_typing s.world })

-- Any number of them, in any order.
pub data Reaches (p : Pjlib) (s : Server) : Server → Type 0 where
  here : Reaches p s s
  then_step : {t u : Server} → Reaches p s t → Happens p t u → Reaches p s u
