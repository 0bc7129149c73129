-- ===== src/Main/Running.antt =====
-- The daemon from the state in which main() starts the server's loop.
use pjsocky.Call.Video.Armed.{WatchdogOk}
use pjsocky.Daemon.{Reaches}
use pjsocky.Daemon.Invariant.{Sound, Reaches-Sound}
use pjsocky.Daemon.Said.{Reaches-Proper}
use pjsocky.Framing.Buffer.{max_line, cleared}
use pjsocky.Main.{server_of}
use pjsocky.Pjlib.{Pjlib}
use pjsocky.Protocol.Said.{Proper}
use pjsocky.Server.Input.{RecvFits}
use pjsocky.Server.Loop.Client.{Linked}
use pjsocky.Server.Loop.{Server}
use pjsocky.Server.Socket.{Listener}
use pjsocky.World.{start}
use pjsocky.Prelude.{ℕ, ◌+◌, refl, length-replicate}

server_of-Sound : (srv : Listener) → Sound (server_of srv)
unfolding server_of start cleared
server_of-Sound srv = (
  record {
    served = λ on. cc;
    alone = λ off. refl;
    sized = length-replicate {A = ℕ} (max_line + 1) 0;
    over = λ status h. cc;
  },
  λ on. cc,
)

server_of-Proper : (srv : Listener) → Proper (server_of srv).world
unfolding server_of start
server_of-Proper srv = tt

-- From the state in which main() starts the server's loop, however turns of it, callbacks and timers follow
-- one another: events and responses go to the client that is served, with the server's write timeout, and
-- to nobody where there is none; a video watchdog that is scheduled is for a call whose video has
-- not been given up, with a window left; and all that the daemon has given to pj_json_write() is
-- messages of docs/PROTOCOL.md. The condition is that recv() delivers at most what it is asked for.
pub Reaches-Safe :
    (lib : Pjlib) (srv : Listener) (t : Server)
    → RecvFits lib
    → Reaches lib (server_of srv) t
    → Linked t × WatchdogOk t.world × Proper t.world
Reaches-Safe lib srv t fits r =
    let sound = Reaches-Sound lib (server_of srv) t fits r (server_of-Sound srv) in
    (sound.0, sound.1, Reaches-Proper lib (server_of srv) t r (server_of-Proper srv))
