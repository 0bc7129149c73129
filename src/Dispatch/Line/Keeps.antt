-- ===== src/Dispatch/Line/Keeps.antt =====
-- What a command line leaves alone.
use pjsocky.Dispatch.Calls.Keeps.{
  cmd_call_dial-Frame, cmd_call_hangup-Frame, cmd_call_hangup_all-Frame, cmd_call_get_info-Frame,
  cmd_call_answer-Frame,
}
use pjsocky.Dispatch.Daemon.Keeps.{
  cmd_status_get-Frame, cmd_account_configure-Frame, cmd_account_register-Frame,
  cmd_account_unregister-Frame, cmd_account_remove-Frame, cmd_config_set_ring_timeout-Frame,
}
use pjsocky.Dispatch.Devices.Keeps.{
  cmd_device_list_audio-Frame, cmd_device_list_video-Frame, cmd_device_set_audio-Frame,
  cmd_device_set_video-Frame,
}
use pjsocky.Dispatch.Messages.Keeps.{cmd_im_send-Frame, cmd_im_typing-Frame}
use pjsocky.Dispatch.Daemon.{cmd_ping, cmd_version_get, cmd_config_get_ring_timeout}
use pjsocky.Dispatch.Frame.{Frame}
use pjsocky.Dispatch.Line.{
  Command, ping, version_get, status_get, account_configure, account_register, account_unregister,
  account_remove, device_list_audio, device_list_video, device_set_audio, device_set_video,
  call_dial, call_hangup, call_hangup_all, call_get_info, call_answer, config_set_ring_timeout,
  config_get_ring_timeout, im_send, im_typing, run, run_found, run_named, run_identified, parsed,
  dispatch_line,
}
use pjsocky.Json.{Value, null, bool, number, string, array, object}
use pjsocky.Pjlib.{Pjlib}
use pjsocky.World.{World}
use pjsocky.Prelude.{String, ℕ, refl, Option, none, some, List}

module _ (p : Pjlib) where
  run-Frame : (c : Command) (params : Option Value) (w : World) → Frame w (run p c params w).1
  unfolding run cmd_ping cmd_version_get cmd_config_get_ring_timeout
  run-Frame ping params w = refl
  run-Frame version_get params w = refl
  run-Frame status_get params w = cmd_status_get-Frame p params w
  run-Frame account_configure params w = cmd_account_configure-Frame p params w
  run-Frame account_register params w = cmd_account_register-Frame p params w
  run-Frame account_unregister params w = cmd_account_unregister-Frame p params w
  run-Frame account_remove params w = cmd_account_remove-Frame p params w
  run-Frame device_list_audio params w = cmd_device_list_audio-Frame p params w
  run-Frame device_list_video params w = cmd_device_list_video-Frame p params w
  run-Frame device_set_audio params w = cmd_device_set_audio-Frame p params w
  run-Frame device_set_video params w = cmd_device_set_video-Frame p params w
  run-Frame call_dial params w = cmd_call_dial-Frame p params w
  run-Frame call_hangup params w = cmd_call_hangup-Frame p params w
  run-Frame call_hangup_all params w = cmd_call_hangup_all-Frame p params w
  run-Frame call_get_info params w = cmd_call_get_info-Frame p params w
  run-Frame call_answer params w = cmd_call_answer-Frame p params w
  run-Frame config_set_ring_timeout params w = cmd_config_set_ring_timeout-Frame p params w
  run-Frame config_get_ring_timeout params w = refl
  run-Frame im_send params w = cmd_im_send-Frame p params w
  run-Frame im_typing params w = cmd_im_typing-Frame p params w

  run_found-Frame :
      (id : String) (params : Option Value) (c : Option Command) (w : World)
      → Frame w (run_found p id params c w).1
  unfolding run_found
  run_found-Frame id params none w = refl
  run_found-Frame id params (some c) w = run-Frame c params w

  run_named-Frame :
      (id : String) (request : Value) (cmd : Option Value) (w : World)
      → Frame w (run_named p id request cmd w).1
  unfolding run_named
  run_named-Frame id request (some (string name)) w = run_found-Frame id _ _ w
  run_named-Frame id request (some null) w = refl
  run_named-Frame id request (some (bool b)) w = refl
  run_named-Frame id request (some (number x)) w = refl
  run_named-Frame id request (some (array vs)) w = refl
  run_named-Frame id request (some (object ms)) w = refl
  run_named-Frame id request none w = refl

  run_identified-Frame :
      (request : Value) (id : Option Value) (w : World) → Frame w (run_identified p request id w).1
  unfolding run_identified
  run_identified-Frame request (some (string id)) w = run_named-Frame id request _ w
  run_identified-Frame request (some null) w = refl
  run_identified-Frame request (some (bool b)) w = refl
  run_identified-Frame request (some (number x)) w = refl
  run_identified-Frame request (some (array vs)) w = refl
  run_identified-Frame request (some (object ms)) w = refl
  run_identified-Frame request none w = refl

  parsed-Frame : (request : Option Value) (w : World) → Frame w (parsed p request w).1
  unfolding parsed
  parsed-Frame (some (object ms)) w = run_identified-Frame (object ms) _ w
  parsed-Frame (some null) w = refl
  parsed-Frame (some (bool b)) w = refl
  parsed-Frame (some (number x)) w = refl
  parsed-Frame (some (array vs)) w = refl
  parsed-Frame (some (string s)) w = refl
  parsed-Frame none w = refl

-- Whatever a line holds, running it changes of the state the account, the selected camera, the
-- current call's id and the ring timeout at most, beside making requests: the client's connection, the three
-- timers and what the watchdog has seen stay as they are.
pub dispatch_line-Frame :
    (p : Pjlib) (line : List ℕ) (w : World) → Frame w (dispatch_line p line w).1
unfolding dispatch_line
dispatch_line-Frame p line w = parsed-Frame p (p.json_parse line) w
