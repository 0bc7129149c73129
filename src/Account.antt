-- ===== src/Account.antt =====
-- src/account.c: the one account, and whether it is registered. The log lines are left out.
pub mod Machine
pub mod Keeps
pub mod Said
mod Tests
use pjsocky.Device.{max_devices, list_video}
use pjsocky.Events.{push}
use pjsocky.Json.{Members, end, add_number, add_str, add_bool}
use pjsocky.Number.Defs.{of_int, of_unsigned}
use pjsocky.Pjlib.{
  Pjlib, Request, VideoDevice, AccConfig, AccInfo, acc_add, acc_set_registration, acc_del,
  acc_get_info, has_encoding, invalid_id, invalid_dev,
}
use pjsocky.World.{World, M, ◌>>=◌, ◌>>◌, pure, ask, account_get_id, device_get_video_capture}
use pjsocky.Prelude.{
  String, ◌/◌, Bool, true, false, ◌&&◌, List, [], ◌∷◌, ◌==◌, if◌then◌else◌, ℤ, is_equal, Status,
  Result, failure, success, eexists, einvalidop, ok, err,
}

-- The first device that can capture.
unfoldable pub first_capture : List VideoDevice → ℤ
first_capture [] = invalid_dev
first_capture (d ∷ ds) = if has_encoding d.dir then d.id else first_capture ds

-- {"acc_id":..,"status":..,"status_text":..,"registered":..}
unfoldable pub build_reg_state_data : AccInfo → Bool → Members
build_reg_state_data info registered =
    add_bool
      (add_str
        (add_number (add_number end "acc_id" (of_int info.id)) "status" (of_unsigned info.status))
        "status_text" info.status_text)
      "registered" registered

module _ (p : Pjlib) where
  enumerated : Result (List VideoDevice) → ℤ
  unfolding first_capture
  enumerated (err e) = invalid_dev
  enumerated (ok devices) = first_capture devices

  unfoldable pub resolve_default_vid_cap_dev : M ℤ
  unfolding enumerated list_video
  resolve_default_vid_cap_dev w =
      if is_equal (device_get_video_capture w) invalid_dev
      then (let r = list_video p max_devices w in (enumerated r.0, r.1))
      else (device_get_video_capture w, w)

  unfoldable pub account_config :
      (sip_uri registrar_uri username password realm : String) → ℤ → AccConfig
  account_config sip_uri registrar_uri username password realm cap_dev =
      record p.acc_config_default {
        id = sip_uri;
        reg_uri = registrar_uri;
        register_on_acc_add = false;
        vid_in_auto_show = true;
        vid_out_auto_transmit = true;
        vid_cap_dev = cap_dev;
        realm = realm;
        scheme = "digest";
        username = username;
        secret = password;
      }

  -- pjsua_acc_add() stores the id only when it succeeds.
  pub added : Result ℤ → M (Result ℤ)
  added (err e) w = (err e, w)
  added (ok id) w = (ok id, record w { acc_id = id })

  unfoldable pub configure : (sip_uri registrar_uri username password realm : String) → M (Result ℤ)
  unfolding added resolve_default_vid_cap_dev account_config
  configure sip_uri registrar_uri username password realm w =
      if is_equal w.acc_id invalid_id
      then ((do
        cap_dev ← resolve_default_vid_cap_dev
        let cfg = account_config sip_uri registrar_uri username password realm cap_dev
        r ← ask (acc_add cfg) p.acc_add
        added r)
          (record w { registered = false }))
      else (err eexists, w)

  set_registration : Bool → M Status
  set_registration renew w =
      if is_equal w.acc_id invalid_id
      then (failure einvalidop, w)
      else ask (acc_set_registration w.acc_id renew) p.acc_set_registration w

  unfoldable pub register : M Status
  unfolding set_registration
  register = set_registration true

  unfoldable pub unregister : M Status
  unfolding set_registration
  unregister = set_registration false

  deleted : Status → M Status
  deleted success w = (success, record w { acc_id = invalid_id; registered = false })
  deleted (failure e) w = (failure e, w)

  unfoldable pub remove : M Status
  unfolding deleted
  remove w =
      if is_equal w.acc_id invalid_id
      then (failure einvalidop, w)
      else if w.registered
      then (failure einvalidop, w)
      else (let r = ask (acc_del w.acc_id) p.acc_del w in deleted r.0 r.1)

  reg_state_known : Bool → Result AccInfo → M (Unit {0})
  reg_state_known renew (err e) w = (tt, w)
  reg_state_known renew (ok info) w =
      let registered = renew && info.status / 100 == 2 in
      (
        tt,
        (push p "reg_state" (build_reg_state_data info registered)
            (record w { registered = registered })).1,
      )

  -- `renew` is pjsua_reg_info's: REGISTER rather than un-REGISTER.
  unfoldable pub on_reg_state2 : ℤ → Bool → M (Unit {0})
  unfolding reg_state_known
  on_reg_state2 acc_id renew = do
    info ← ask (acc_get_info acc_id) p.acc_get_info
    reg_state_known renew info
