-- ===== src/Dispatch/Line/Typed.antt =====
-- The result of every command has the shape that docs/PROTOCOL.md gives.
use pjsocky.Dispatch.Calls.Typed.{
  cmd_call_dial-Typed, cmd_call_hangup-Typed, cmd_call_hangup_all-Typed, cmd_call_get_info-Typed,
  cmd_call_answer-Typed,
}
use pjsocky.Dispatch.Daemon.{cmd_ping}
use pjsocky.Dispatch.Daemon.Typed.{
  cmd_version_get-Typed, cmd_status_get-Typed, cmd_account_configure-Typed,
  cmd_account_register-Typed, cmd_account_unregister-Typed, cmd_account_remove-Typed,
  cmd_config_set_ring_timeout-Typed, cmd_config_get_ring_timeout-Typed,
}
use pjsocky.Dispatch.Devices.Typed.{
  cmd_device_list_audio-Typed, cmd_device_list_video-Typed, cmd_device_set_audio-Typed,
  cmd_device_set_video-Typed,
}
use pjsocky.Dispatch.Line.{
  Command, ping, version_get, status_get, account_configure, account_register, account_unregister,
  account_remove, device_list_audio, device_list_video, device_set_audio, device_set_video,
  call_dial, call_hangup, call_hangup_all, call_get_info, call_answer, config_set_ring_timeout,
  config_get_ring_timeout, im_send, im_typing, run,
}
use pjsocky.Dispatch.Messages.Typed.{cmd_im_send-Typed, cmd_im_typing-Typed}
use pjsocky.Json.{Value}
use pjsocky.Pjlib.{Pjlib}
use pjsocky.Protocol.{result_fields}
use pjsocky.Protocol.Typed.{Typed}
use pjsocky.World.{World}
use pjsocky.Prelude.{refl, Option}

-- Whatever its parameters and the state, and however pjsua-lib answers: a command that succeeds gives a
-- result with the fields that docs/PROTOCOL.md lists for it, of their types and in their order, and
-- no others; its words ("state" and "dir") are among those listed, or "UNKNOWN" and "none". Of
-- call.get_info each pair of counters may be absent.
pub run-Typed :
    (p : Pjlib) (c : Command) (params : Option Value) (w : World)
    → Typed (result_fields c) (run p c params w).0
unfolding run cmd_ping
run-Typed p ping params w = refl
run-Typed p version_get params w = cmd_version_get-Typed p params w
run-Typed p status_get params w = cmd_status_get-Typed p params w
run-Typed p account_configure params w = cmd_account_configure-Typed p params w
run-Typed p account_register params w = cmd_account_register-Typed p params w
run-Typed p account_unregister params w = cmd_account_unregister-Typed p params w
run-Typed p account_remove params w = cmd_account_remove-Typed p params w
run-Typed p device_list_audio params w = cmd_device_list_audio-Typed p params w
run-Typed p device_list_video params w = cmd_device_list_video-Typed p params w
run-Typed p device_set_audio params w = cmd_device_set_audio-Typed p params w
run-Typed p device_set_video params w = cmd_device_set_video-Typed p params w
run-Typed p call_dial params w = cmd_call_dial-Typed p params w
run-Typed p call_hangup params w = cmd_call_hangup-Typed p params w
run-Typed p call_hangup_all params w = cmd_call_hangup_all-Typed p params w
run-Typed p call_get_info params w = cmd_call_get_info-Typed p params w
run-Typed p call_answer params w = cmd_call_answer-Typed p params w
run-Typed p config_set_ring_timeout params w = cmd_config_set_ring_timeout-Typed p params w
run-Typed p config_get_ring_timeout params w = cmd_config_get_ring_timeout-Typed p params w
run-Typed p im_send params w = cmd_im_send-Typed p params w
run-Typed p im_typing params w = cmd_im_typing-Typed p params w
