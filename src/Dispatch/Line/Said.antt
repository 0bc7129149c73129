-- ===== src/Dispatch/Line/Said.antt =====
-- A command line says nothing on its own, and its response is a message.
use pjsocky.Dispatch.Calls.Said.{
  cmd_call_dial-Silent, cmd_call_hangup-Silent, cmd_call_hangup_all-Silent,
  cmd_call_get_info-Silent, cmd_call_answer-Silent,
}
use pjsocky.Dispatch.Daemon.Said.{
  cmd_status_get-Silent, cmd_account_configure-Silent, cmd_account_register-Silent,
  cmd_account_unregister-Silent, cmd_account_remove-Silent, cmd_config_set_ring_timeout-Silent,
}
use pjsocky.Dispatch.Devices.Said.{
  cmd_device_list_audio-Silent, cmd_device_list_video-Silent, cmd_device_set_audio-Silent,
  cmd_device_set_video-Silent,
}
use pjsocky.Dispatch.Messages.Said.{cmd_im_send-Silent, cmd_im_typing-Silent}
use pjsocky.Dispatch.Daemon.{cmd_ping, cmd_version_get, cmd_config_get_ring_timeout}
use pjsocky.Dispatch.Line.{
  Command, ping, version_get, status_get, account_configure, account_register, account_unregister,
  account_remove, device_list_audio, device_list_video, device_set_audio, device_set_video,
  call_dial, call_hangup, call_hangup_all, call_get_info, call_answer, config_set_ring_timeout,
  config_get_ring_timeout, im_send, im_typing, run, error_code_for, fail, succeed, answered,
  run_found, run_named, run_identified, parsed, dispatch_line,
}
use pjsocky.Dispatch.Line.Typed.{run-Typed}
use pjsocky.Json.{
  Value, null, bool, number, string, array, object, Members, add_bool, add_string, add_member,
}
use pjsocky.Pjlib.{Pjlib}
use pjsocky.Protocol.{mem_word, result_fields}
use pjsocky.Protocol.Message.{error_codes, IsMessage, result, failed}
use pjsocky.Protocol.Said.{Silent}
use pjsocky.Protocol.Typed.{Typed}
use pjsocky.World.{World}
use pjsocky.Prelude.{
  other, String, ℕ, ◌≡◌, refl, true, Option, none, some, List, Error, Result, einval, eexists,
  einvalidop, enotfound, eeof, epending, etoobig, etimedout, enomem, enametoolong, evid_invdev,
  evid_invcap, os, ok, err,
}

error_code-word : (e : Error) → mem_word (error_code_for e) error_codes ≡ true
unfolding error_code_for
error_code-word einval = refl
error_code-word eexists = refl
error_code-word einvalidop = refl
error_code-word enotfound = refl
error_code-word eeof = refl
error_code-word epending = refl
error_code-word etoobig = refl
error_code-word etimedout = refl
error_code-word enomem = refl
error_code-word enametoolong = refl
error_code-word evid_invdev = refl
error_code-word evid_invcap = refl
error_code-word (os n) = refl
error_code-word (other n) = refl

fail-IsMessage :
    (id code message : String) → mem_word code error_codes ≡ true → IsMessage (fail id code message)
unfolding fail add_bool add_string add_member
fail-IsMessage id code message known = failed id _ (rw known refl)

-- A response, if there is one.
abbrev pub IsReply : Option Value → Type 0
IsReply none = Unit {0}
IsReply (some v) = IsMessage v

module _ (p : Pjlib) where
  run-Silent : (c : Command) (params : Option Value) (w : World) → Silent w (run p c params w).1
  unfolding run cmd_ping cmd_version_get cmd_config_get_ring_timeout
  run-Silent ping params w = refl
  run-Silent version_get params w = refl
  run-Silent status_get params w = cmd_status_get-Silent p params w
  run-Silent account_configure params w = cmd_account_configure-Silent p params w
  run-Silent account_register params w = cmd_account_register-Silent p params w
  run-Silent account_unregister params w = cmd_account_unregister-Silent p params w
  run-Silent account_remove params w = cmd_account_remove-Silent p params w
  run-Silent device_list_audio params w = cmd_device_list_audio-Silent p params w
  run-Silent device_list_video params w = cmd_device_list_video-Silent p params w
  run-Silent device_set_audio params w = cmd_device_set_audio-Silent p params w
  run-Silent device_set_video params w = cmd_device_set_video-Silent p params w
  run-Silent call_dial params w = cmd_call_dial-Silent p params w
  run-Silent call_hangup params w = cmd_call_hangup-Silent p params w
  run-Silent call_hangup_all params w = cmd_call_hangup_all-Silent p params w
  run-Silent call_get_info params w = cmd_call_get_info-Silent p params w
  run-Silent call_answer params w = cmd_call_answer-Silent p params w
  run-Silent config_set_ring_timeout params w = cmd_config_set_ring_timeout-Silent p params w
  run-Silent config_get_ring_timeout params w = refl
  run-Silent im_send params w = cmd_im_send-Silent p params w
  run-Silent im_typing params w = cmd_im_typing-Silent p params w

  answered-IsMessage :
      (id : String) (c : Command) (r : Result Members)
      → Typed (result_fields c) r
      → IsMessage (answered p id r)
  unfolding answered succeed add_bool add_string add_member
  answered-IsMessage id c (ok ms) h = result id c ms h
  answered-IsMessage id c (err e) h = fail-IsMessage id (error_code_for e) _ (error_code-word e)

  abbrev Replies : World → Option Value × World → Type 0
  Replies w r = Silent w r.1 × IsReply r.0

  run_found-Replies :
      (id : String) (params : Option Value) (c : Option Command) (w : World)
      → let r = run_found p id params c w in Silent w r.1 × IsMessage r.0
  unfolding run_found
  run_found-Replies id params none w = (refl, fail-IsMessage id _ _ refl)
  run_found-Replies id params (some c) w =
      (run-Silent c params w, answered-IsMessage id c _ (run-Typed p c params w))

  run_named-Replies :
      (id : String) (request : Value) (cmd : Option Value) (w : World)
      → let r = run_named p id request cmd w in Silent w r.1 × IsMessage r.0
  unfolding run_named
  run_named-Replies id request (some (string name)) w = run_found-Replies id _ _ w
  run_named-Replies id request (some null) w = (refl, fail-IsMessage id _ _ refl)
  run_named-Replies id request (some (bool b)) w = (refl, fail-IsMessage id _ _ refl)
  run_named-Replies id request (some (number x)) w = (refl, fail-IsMessage id _ _ refl)
  run_named-Replies id request (some (array vs)) w = (refl, fail-IsMessage id _ _ refl)
  run_named-Replies id request (some (object ms)) w = (refl, fail-IsMessage id _ _ refl)
  run_named-Replies id request none w = (refl, fail-IsMessage id _ _ refl)

  run_identified-Replies :
      (request : Value) (id : Option Value) (w : World) → Replies w (run_identified p request id w)
  unfolding run_identified
  run_identified-Replies request (some (string id)) w = run_named-Replies id request _ w
  run_identified-Replies request (some null) w = (refl, tt)
  run_identified-Replies request (some (bool b)) w = (refl, tt)
  run_identified-Replies request (some (number x)) w = (refl, tt)
  run_identified-Replies request (some (array vs)) w = (refl, tt)
  run_identified-Replies request (some (object ms)) w = (refl, tt)
  run_identified-Replies request none w = (refl, tt)

  parsed-Replies : (request : Option Value) (w : World) → Replies w (parsed p request w)
  unfolding parsed
  parsed-Replies (some (object ms)) w = run_identified-Replies (object ms) _ w
  parsed-Replies (some null) w = (refl, tt)
  parsed-Replies (some (bool b)) w = (refl, tt)
  parsed-Replies (some (number x)) w = (refl, tt)
  parsed-Replies (some (array vs)) w = (refl, tt)
  parsed-Replies (some (string s)) w = (refl, tt)
  parsed-Replies none w = (refl, tt)

  -- Whatever a line holds: nothing is said while it is run, and its response is a message.
  pub dispatch_line-Replies :
      (line : List ℕ) (w : World) → let r = dispatch_line p line w in Silent w r.1 × IsReply r.0
  unfolding dispatch_line
  dispatch_line-Replies line w = parsed-Replies (p.json_parse line) w
