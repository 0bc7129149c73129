-- ===== src/Im/Tests.antt =====
-- Runs of the outgoing requests.
use pjsocky.Call.Commands.{dial}
use pjsocky.Im.{send_message, typing}
use pjsocky.Im.Gate.{Gated, is_invalid_status, is_invalid_result, outgoing-Gated}
use pjsocky.Sample.{sample, sample_world}
use pjsocky.Prelude.{true}

outgoing-Gated_example :
    let message = send_message sample "sip:peer" "hi" "text/plain" sample_world in
    let indication = typing sample "sip:peer" true sample_world in
    let call = dial sample "sip:peer" true sample_world in
    Gated sample_world (is_invalid_status message.0) message.1
    × Gated sample_world (is_invalid_status indication.0) indication.1
    × Gated sample_world (is_invalid_result call.0) call.1
outgoing-Gated_example = outgoing-Gated sample "sip:peer" "hi" "text/plain" true sample_world
