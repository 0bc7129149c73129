-- ===== src/Dispatch/Daemon.antt =====
-- src/proto/dispatch.c: ping, version.get, status.get, the account.* and the config.* commands.
pub mod Keeps
pub mod Said
pub mod Typed
use pjsocky.Dispatch.Handler.{Handler, no_result, id_result}
use pjsocky.Account.{configure, register, unregister, remove}
use pjsocky.Call.Commands.{set_ring_timeout}
use pjsocky.Dispatch.Params.{get_string_member, get_int_member, or_default}
use pjsocky.Json.{Members, end, add_string, add_number}
use pjsocky.Number.Defs.{of_int, of_unsigned}
use pjsocky.Pjlib.{Pjlib, AccInfo, acc_get_info, invalid_id}
use pjsocky.Version
use pjsocky.World.{
  World, M, pure, ask, account_get_id, account_is_registered, call_get_id, call_get_ring_timeout,
}
use pjsocky.Prelude.{
  String, not, Option, some, if◌then◌else◌, ℤ, is_equal, pos, negsuc, Result, einval, ok, err,
}

-- The "state" of status.get where there is an account.
unfoldable pub status_state : World → String
status_state w =
    if not (is_equal (call_get_id w) invalid_id)
    then "in_call"
    else if account_is_registered w
    then "registered"
    else "registering"

module _ (p : Pjlib) where
  unfoldable pub cmd_ping : Handler
  cmd_ping params = pure (ok end)

  status_of : World → Result AccInfo → Result Members
  status_of w (err e) = err e
  status_of w (ok info) = ok (
      add_number
        (add_number
          (add_number (add_string end "state" (status_state w)) "acc_id"
            (of_int (account_get_id w)))
          "reg_status" (of_unsigned info.status))
        "call_id" (of_int (call_get_id w)))

  unfoldable pub cmd_status_get : Handler
  unfolding status_of
  cmd_status_get params w =
      if is_equal (account_get_id w) invalid_id
      then (
        ok (
            add_number
              (add_number (add_number (add_string end "state" "idle") "acc_id" (of_int (negsuc 0)))
                "reg_status" (of_unsigned 0))
              "call_id" (of_int (call_get_id w))),
        w,
      )
      else let r = ask (acc_get_info (account_get_id w)) p.acc_get_info w in (status_of w r.0, r.1)

  configure_with :
      (sip_uri registrar_uri username password : Option String) → String → M (Result Members)
  configure_with (some sip_uri) (some registrar_uri) (some username) (some password) realm w =
      let r = configure p sip_uri registrar_uri username password realm w in
      (id_result "acc_id" r.0, r.1)
  configure_with _ _ _ _ realm w = (err einval, w)

  unfoldable pub cmd_account_configure : Handler
  unfolding configure_with
  cmd_account_configure params =
      configure_with (get_string_member params "sip_uri") (get_string_member params "registrar_uri")
        (get_string_member params "username") (get_string_member params "password")
        (or_default (get_string_member params "realm") "*")

  unfoldable pub cmd_account_register : Handler
  cmd_account_register params = no_result (register p)

  unfoldable pub cmd_account_unregister : Handler
  cmd_account_unregister params = no_result (unregister p)

  unfoldable pub cmd_account_remove : Handler
  cmd_account_remove params = no_result (remove p)

  set_ring_timeout_with : Option ℤ → M (Result Members)
  set_ring_timeout_with (some (pos seconds)) w = (ok end, set_ring_timeout seconds w)
  set_ring_timeout_with _ w = (err einval, w)

  unfoldable pub cmd_config_set_ring_timeout : Handler
  unfolding set_ring_timeout_with
  cmd_config_set_ring_timeout params = set_ring_timeout_with (get_int_member p params "seconds")

  unfoldable pub cmd_config_get_ring_timeout : Handler
  cmd_config_get_ring_timeout params w =
      (ok (add_number end "seconds" (of_unsigned (call_get_ring_timeout w))), w)

  unfoldable pub cmd_version_get : Handler
  cmd_version_get params = pure (ok (Version.fill p end))
