-- ===== src/Daemon/Tests.antt =====
-- A run of the daemon.
use pjsocky.Call.Callbacks.Watched.{incoming_call}
use pjsocky.Call.Callbacks.{on_incoming_call}
use pjsocky.Daemon.{server_turn, call_step, Reaches, here, then_step}
use pjsocky.Daemon.Invariant.{Sound, Reaches-Sound}
use pjsocky.Daemon.Said.{Reaches-Proper}
use pjsocky.Protocol.Said.{Proper}
use pjsocky.Framing.Buffer.{cleared, max_line}
use pjsocky.Sample.{sample, sample-RecvFits}
use pjsocky.Server.Loop.{ready, client, no_client, Server, turn}
use pjsocky.World.{start}
use pjsocky.Prelude.{ℕ, ◌+◌, refl, true, false, none, pos, length-replicate}

abbrev idle_server : Server
idle_server = record {
  write_timeout_msec = 2000;
  stop_requested = false;
  conn = record { active = false; sock = 0; framing = cleared };
  world = start;
  returned = none;
}

idle_server-Sound : Sound idle_server
unfolding start cleared
idle_server-Sound = (
  record {
    served = λ on. cc;
    alone = λ off. refl;
    sized = length-replicate {A = ℕ} (max_line + 1) 0;
    over = λ status h. cc;
  },
  λ on. cc,
)

-- A client connects, a call comes in, and a command follows.
abbrev greeted : Server
greeted = turn sample (ready false (client 5)) idle_server

abbrev called : Server
called = record greeted { world = on_incoming_call sample (pos 1) greeted.world }

abbrev answered : Server
answered = turn sample (ready true no_client) called

story : Reaches sample idle_server answered
story =
    then_step
      (then_step (then_step here (server_turn (ready false (client 5)) idle_server)) (
        call_step greeted (on_incoming_call sample (pos 1) greeted.world)
          (incoming_call (pos 1) greeted.world)))
      (server_turn (ready true no_client) called)

Reaches-Sound_example : Sound answered
Reaches-Sound_example =
    Reaches-Sound sample idle_server answered sample-RecvFits story idle_server-Sound

idle_server-Proper : Proper idle_server.world
unfolding start
idle_server-Proper = tt

Reaches-Proper_example : Proper answered.world
Reaches-Proper_example = Reaches-Proper sample idle_server answered story idle_server-Proper
