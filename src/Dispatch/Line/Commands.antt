-- ===== src/Dispatch/Line/Commands.antt =====
-- Commands without their parameters, and commands that only look.
use pjsocky.Dispatch.Calls.{cmd_call_dial, cmd_call_hangup, cmd_call_get_info, cmd_call_answer}
use pjsocky.Dispatch.Daemon.{cmd_account_configure, cmd_config_set_ring_timeout}
use pjsocky.Dispatch.Devices.{cmd_device_set_audio, cmd_device_set_video}
use pjsocky.Dispatch.Line.{
  Command, ping, version_get, status_get, account_configure, account_register, account_unregister,
  account_remove, device_list_audio, device_list_video, device_set_audio, device_set_video,
  call_dial, call_hangup, call_hangup_all, call_get_info, call_answer, config_set_ring_timeout,
  config_get_ring_timeout, im_send, im_typing, run,
}
use pjsocky.Dispatch.Messages.{cmd_im_send, cmd_im_typing}
use pjsocky.Dispatch.Params.{get_string_member, get_bool_member, get_int_member}
use pjsocky.Json.{find}
use pjsocky.Pjlib.{Pjlib}
use pjsocky.World.{World}
use pjsocky.Prelude.{◌≡◌, refl, Bool, true, false, none, einval, err}

-- docs/PROTOCOL.md: the commands that have a required parameter.
abbrev pub needs_params : Command → Bool
needs_params account_configure = true
needs_params device_set_audio = true
needs_params device_set_video = true
needs_params call_dial = true
needs_params call_hangup = true
needs_params call_get_info = true
needs_params call_answer = true
needs_params config_set_ring_timeout = true
needs_params im_send = true
needs_params im_typing = true
needs_params _ = false

-- A command that needs parameters and is given none is refused as having invalid ones: nothing is
-- asked of pjsua-lib and nothing changes.
pub run-no_params :
    (p : Pjlib) (c : Command) (w : World) → needs_params c ≡ true → run p c none w ≡ (err einval, w)
unfolding run cmd_account_configure cmd_device_set_audio cmd_device_set_video cmd_call_dial
    cmd_call_hangup cmd_call_get_info cmd_call_answer cmd_config_set_ring_timeout cmd_im_send
    cmd_im_typing get_string_member get_bool_member get_int_member find
run-no_params p account_configure w h = refl
run-no_params p device_set_audio w h = refl
run-no_params p device_set_video w h = refl
run-no_params p call_dial w h = refl
run-no_params p call_hangup w h = refl
run-no_params p call_get_info w h = refl
run-no_params p call_answer w h = refl
run-no_params p config_set_ring_timeout w h = refl
run-no_params p im_send w h = refl
run-no_params p im_typing w h = refl
run-no_params p ping w h = cc
run-no_params p version_get w h = cc
run-no_params p status_get w h = cc
run-no_params p account_register w h = cc
run-no_params p account_unregister w h = cc
run-no_params p account_remove w h = cc
run-no_params p device_list_audio w h = cc
run-no_params p device_list_video w h = cc
run-no_params p call_hangup_all w h = cc
run-no_params p config_get_ring_timeout w h = cc
