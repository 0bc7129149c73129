-- ===== src/Dispatch/Line.antt =====
-- src/proto/dispatch.c: the command table, the error codes and pjsocky_dispatch_line.
pub mod Table
pub mod Response
pub mod Keeps
pub mod Said
pub mod Typed
pub mod Commands
use pjsocky.Dispatch.Calls.{
  cmd_call_dial, cmd_call_hangup, cmd_call_hangup_all, cmd_call_get_info, cmd_call_answer,
}
use pjsocky.Dispatch.Daemon.{
  cmd_ping, cmd_version_get, cmd_status_get, cmd_account_configure, cmd_account_register,
  cmd_account_unregister, cmd_account_remove, cmd_config_set_ring_timeout,
  cmd_config_get_ring_timeout,
}
use pjsocky.Dispatch.Devices.{
  cmd_device_list_audio, cmd_device_list_video, cmd_device_set_audio, cmd_device_set_video,
}
use pjsocky.Dispatch.Handler.{Handler}
use pjsocky.Dispatch.Messages.{cmd_im_send, cmd_im_typing}
use pjsocky.Json.{
  Value, null, bool, number, string, array, object, Members, end, add_member, add_bool, add_string,
  find,
}
use pjsocky.Pjlib.{Pjlib}
use pjsocky.World.{World, M, pure}
use pjsocky.Prelude.{
  String, str_eq, ℕ, true, false, Option, none, some, List, [], ◌∷◌, if◌then◌else◌, Error, Result,
  einval, eexists, einvalidop, ok, err,
}

-- The functions of the table.
pub data Command : Type 0 where
  ping version_get status_get : Command
  account_configure account_register account_unregister account_remove : Command
  device_list_audio device_list_video device_set_audio device_set_video : Command
  call_dial call_hangup call_hangup_all call_get_info call_answer : Command
  config_set_ring_timeout config_get_ring_timeout : Command
  im_send im_typing : Command

-- CMD_TABLE
abbrev pub table : List (String × Command)
table =
    ("ping", ping)
    ∷ ("version.get", version_get)
    ∷ ("status.get", status_get)
    ∷ ("account.configure", account_configure)
    ∷ ("account.register", account_register)
    ∷ ("account.unregister", account_unregister)
    ∷ ("account.remove", account_remove)
    ∷ ("device.list_audio", device_list_audio)
    ∷ ("device.list_video", device_list_video)
    ∷ ("device.set_audio", device_set_audio)
    ∷ ("device.set_video", device_set_video)
    ∷ ("call.dial", call_dial)
    ∷ ("call.hangup", call_hangup)
    ∷ ("call.hangup_all", call_hangup_all)
    ∷ ("call.get_info", call_get_info)
    ∷ ("call.answer", call_answer)
    ∷ ("config.set_ring_timeout", config_set_ring_timeout)
    ∷ ("config.get_ring_timeout", config_get_ring_timeout)
    ∷ ("im.send", im_send)
    ∷ ("im.typing", im_typing)
    ∷ []

unfoldable pub find_in : List (String × Command) → String → Option Command
find_in [] name = none
find_in ((k, c) ∷ entries) name = if str_eq name k then some c else find_in entries name

unfoldable pub find_cmd : String → Option Command
unfolding find_in
find_cmd name = find_in table name

unfoldable pub run : Pjlib → Command → Handler
run p ping = cmd_ping p
run p version_get = cmd_version_get p
run p status_get = cmd_status_get p
run p account_configure = cmd_account_configure p
run p account_register = cmd_account_register p
run p account_unregister = cmd_account_unregister p
run p account_remove = cmd_account_remove p
run p device_list_audio = cmd_device_list_audio p
run p device_list_video = cmd_device_list_video p
run p device_set_audio = cmd_device_set_audio p
run p device_set_video = cmd_device_set_video p
run p call_dial = cmd_call_dial p
run p call_hangup = cmd_call_hangup p
run p call_hangup_all = cmd_call_hangup_all p
run p call_get_info = cmd_call_get_info p
run p call_answer = cmd_call_answer p
run p config_set_ring_timeout = cmd_config_set_ring_timeout p
run p config_get_ring_timeout = cmd_config_get_ring_timeout p
run p im_send = cmd_im_send p
run p im_typing = cmd_im_typing p

unfoldable pub error_code_for : Error → String
error_code_for eexists = "invalid_state"
error_code_for einvalidop = "invalid_state"
error_code_for einval = "invalid_params"
error_code_for _ = "pjsua_error"

-- {"id":..,"ok":false,"error":{"code":..,"message":..}}
unfoldable pub fail : (id code message : String) → Value
fail id code message = object (
    add_member (add_bool (add_member end "id" (string id)) "ok" false) "error"
      (object (add_string (add_string end "code" code) "message" message)))

-- {"id":..,"ok":true,"result":{..}}
unfoldable pub succeed : String → Members → Value
succeed id result =
    object
      (add_member (add_bool (add_member end "id" (string id)) "ok" true) "result" (object result))

module _ (p : Pjlib) where
  answered : String → Result Members → Value
  answered id (ok result) = succeed id result
  answered id (err e) = fail id (error_code_for e) (p.strerror e)

  run_found : String → Option Value → Option Command → M Value
  unfolding answered
  run_found id params none w = (fail id "unknown_command" "no such command", w)
  run_found id params (some c) w = let r = run p c params w in (answered id r.0, r.1)

  run_named : String → Value → Option Value → M Value
  unfolding run_found
  run_named id request (some (string name)) w =
      run_found id (find (some request) "params") (find_cmd name) w
  run_named id request _ w = (fail id "bad_request" "missing or invalid \"cmd\"", w)

  -- `none` is PJ_EINVAL: there is no response.
  run_identified : Value → Option Value → M (Option Value)
  unfolding run_named
  run_identified request (some (string id)) w =
      let r = run_named id request (find (some request) "cmd") w in (some r.0, r.1)
  run_identified request _ w = (none, w)

  -- Only an object has members, so the test of the type is the lookup's.
  parsed : Option Value → M (Option Value)
  unfolding run_identified
  parsed (some (object ms)) w = run_identified (object ms) (find (some (object ms)) "id") w
  parsed _ w = (none, w)

  unfoldable pub dispatch_line : List ℕ → M (Option Value)
  unfolding parsed
  dispatch_line line w = parsed (p.json_parse line) w
