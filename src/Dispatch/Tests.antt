-- ===== src/Dispatch/Tests.antt =====
-- Runs of the dispatcher.
use pjsocky.Dispatch.Line.Commands.{run-no_params}
use pjsocky.Dispatch.Frame.{Frame}
use pjsocky.Dispatch.Line.{call_dial, status_get, run, find_cmd, dispatch_line}
use pjsocky.Dispatch.Line.Keeps.{dispatch_line-Frame}
use pjsocky.Dispatch.Line.Response.{Answers, dispatch_line-Answers}
use pjsocky.Dispatch.Line.Table.{name_of, find_cmd_iff}
use pjsocky.Dispatch.Line.Typed.{run-Typed}
use pjsocky.Protocol.{result_fields}
use pjsocky.Protocol.Typed.{Typed}
use pjsocky.Json.{find, find_member}
use pjsocky.Sample.{sample, sample_world}
use pjsocky.Prelude.{◌≡◌, refl, ◌↔◌, none, some, [], einval, err}

find_cmd_iff_example : (find_cmd "call.dial" ≡ some call_dial) ↔ ("call.dial" ≡ name_of call_dial)
find_cmd_iff_example = find_cmd_iff "call.dial" call_dial

unknown_name : find_cmd "call.dials" ≡ none
unfolding find_cmd
unknown_name = refl

dispatch_line-Answers_example :
    Answers (some "1") sample_world (dispatch_line sample [] sample_world)
unfolding find find_member
dispatch_line-Answers_example = dispatch_line-Answers sample [] sample_world

dispatch_line-Frame_example : Frame sample_world (dispatch_line sample [] sample_world).1
dispatch_line-Frame_example = dispatch_line-Frame sample [] sample_world

run-no_params_example : run sample call_dial none sample_world ≡ (err einval, sample_world)
run-no_params_example = run-no_params sample call_dial sample_world refl

run-Typed_example : Typed (result_fields status_get) (run sample status_get none sample_world).0
run-Typed_example = run-Typed sample status_get none sample_world
