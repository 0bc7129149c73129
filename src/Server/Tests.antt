-- ===== src/Server/Tests.antt =====
-- Runs of the server.
use pjsocky.Dispatch.Line.{dispatch_line}
use pjsocky.Server.Answers.{SaysOne, handle_line-SaysOne}
use pjsocky.World.{Connection}
use pjsocky.Framing.Buffer.{cleared, fill, max_line}
use pjsocky.Framing.Buffer.Step.{IsValid, waiting, delivered}
use pjsocky.Sample.{sample, sample_world, sample-JsonPrints, sample-RecvFits}
use pjsocky.Server.{handle_line, receive, handle_conn_input, refuse_conn}
use pjsocky.Server.Input.{Handles, handle_conn_input-Handles}
use pjsocky.Server.Refusal.{TurnsAway, refuse_conn-TurnsAway}
use pjsocky.Prelude.{ℕ, ◌+◌, refl, [], ◌++◌, arith, length-replicate}

cleared-IsValid : IsValid cleared
unfolding cleared
cleared-IsValid = record { within = omega arith; sized = length-replicate {A = ℕ} (max_line + 1) 0 }

handle_conn_input-Handles_example :
    let r = receive sample 5 cleared sample_world in
    Handles sample
      (fill cleared r.0).1
      (waiting cleared ++ delivered r.0)
      r.1
      (handle_conn_input sample 5 cleared sample_world)
handle_conn_input-Handles_example =
    handle_conn_input-Handles sample 5 cleared sample_world cleared-IsValid sample-RecvFits

refuse_conn-TurnsAway_example :
    TurnsAway sample 6 sample_world (refuse_conn sample 2000 6 sample_world)
refuse_conn-TurnsAway_example = refuse_conn-TurnsAway sample 2000 6 sample_world sample-JsonPrints

abbrev client_5 : Connection
client_5 = record { sock = 5; write_timeout_msec = 2000 }

handle_line-SaysOne_example :
    SaysOne
      (dispatch_line sample [] sample_world).0
      sample_world.history
      (handle_line sample [] sample_world).1.history
handle_line-SaysOne_example = handle_line-SaysOne sample (λ h. refl) client_5 [] sample_world refl
