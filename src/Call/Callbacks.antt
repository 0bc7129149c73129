-- ===== src/Call/Callbacks.antt =====
-- src/call.c: the callbacks of pjsua-lib on calls, and the ring timeout.
pub mod Ring
pub mod Watched
pub mod Keeps
pub mod Said
use pjsocky.Call.{cancel, fired, arm}
use pjsocky.Call.Info.{
  is_ringing, is_disconnected, is_active, same_type, has_active, state_str, query,
}
use pjsocky.Call.Negotiated.{log_negotiated_media}
use pjsocky.Call.Report.{arm_media_report}
use pjsocky.Call.Video.{give_up_on_video, arm_video_watchdog, apply_video_capture_device}
use pjsocky.Events.{push}
use pjsocky.Json.{Members, end, add_number, add_string, add_str, add_bool}
use pjsocky.Number.Defs.{of_int, of_unsigned}
use pjsocky.Pjlib.{
  Pjlib, CallInfo, CallSetting, Media, audio, video, ring_timer, video_watchdog, media_report,
  conf_connect, call_hangup, invalid_id,
}
use pjsocky.World.{World, ask}
use pjsocky.Prelude.{
  ℕ, suc, Bool, not, ◌&&◌, Option, none, some, List, [], ◌∷◌, ltb, ◌==◌, if◌then◌else◌, ℤ, is_equal,
  pos, Result, ok, err,
}

-- The data of the events.
unfoldable pub build_call_state_data : CallInfo → Members
build_call_state_data info =
    add_str
      (add_number
        (add_string (add_number end "call_id" (of_int info.id)) "state" (state_str info.state))
        "last_status" (of_unsigned info.last_status))
      "last_status_text" info.last_status_text

unfoldable pub build_call_media_state_data : CallInfo → Members
build_call_media_state_data info =
    add_bool
      (add_bool (add_number end "call_id" (of_int info.id)) "has_audio"
        (has_active audio info.media))
      "has_video" (has_active video info.media)

unfoldable pub build_incoming_call_data : CallInfo → Members
build_incoming_call_data info =
    add_bool
      (add_str
        (add_number (add_number end "call_id" (of_int info.id)) "acc_id" (of_int info.acc_id))
        "from" info.remote_info)
      "has_video" (ltb 0 info.rem_vid_cnt)

-- PJSIP_SC_TEMPORARILY_UNAVAILABLE
abbrev pub temporarily_unavailable : ℕ
temporarily_unavailable = 480

-- A media line of an offer: whether its type is "video", and its port.
pub record OfferLine : Type 0 where
  pub is_video : Bool
  pub port : ℕ

unfoldable pub offered_video_count : List OfferLine → ℕ
offered_video_count [] = 0
offered_video_count (m ∷ ms) =
    let rest = offered_video_count ms in if m.is_video && not (m.port == 0) then suc rest else rest

-- on_call_rx_offer changes the setting that the answer is built from; `none` is a NULL offer.
unfoldable pub on_call_rx_offer : Option (List OfferLine) → CallSetting → CallSetting
on_call_rx_offer none opt = opt
on_call_rx_offer (some offer) opt = record opt {
  txt_cnt = 0;
  vid_cnt = if ltb 0 (offered_video_count offer) && opt.vid_cnt == 0 then 1 else opt.vid_cnt;
}

module _ (p : Pjlib) where
  reject_ringing : ℤ → Result CallInfo → World → World
  reject_ringing id (err e) w = w
  reject_ringing id (ok info) w =
      if is_ringing info.state
      then (ask (call_hangup id temporarily_unavailable) p.call_hangup w).1
      else w

  unfoldable pub ring_timer_cb : World → World
  unfolding reject_ringing
  ring_timer_cb w =
      let id = w.ring.user_data in
      let r = query p id (fired ring_timer w) in reject_ringing id r.0 r.1

  -- The ring timer goes when its call stops ringing.
  unfoldable pub stop_ringing : ℤ → CallInfo → World → World
  stop_ringing id info w =
      if w.ring.scheduled && (is_equal id w.ring.user_data && not (is_ringing info.state))
      then cancel ring_timer w
      else w

  unfoldable pub forget : ℤ → CallInfo → World → World
  forget id info w =
      if is_disconnected info.state
      then cancel media_report (
          cancel video_watchdog (record w {
            call_id = if is_equal id w.call_id then invalid_id else w.call_id;
            video_failed_call_id =
                if is_equal id w.video_failed_call_id then invalid_id else w.video_failed_call_id;
          }))
      else w

  call_state_known : ℤ → Result CallInfo → World → World
  unfolding stop_ringing forget
  call_state_known id (err e) w = w
  call_state_known id (ok info) w =
      (push p "call_state" (build_call_state_data info) (forget id info (stop_ringing id info w))).1

  unfoldable pub on_call_state : ℤ → World → World
  unfolding call_state_known
  on_call_state id w = let r = query p id w in call_state_known id r.0 r.1

  -- Each active audio stream and the sound device (slot 0), both ways.
  unfoldable pub connect_call_audio_to_sound_dev : List Media → World → World
  connect_call_audio_to_sound_dev [] w = w
  connect_call_audio_to_sound_dev (m ∷ ms) w = connect_call_audio_to_sound_dev ms (
      if same_type m.type audio && is_active m.status
      then (ask (conf_connect (pos 0) m.conf_slot) p.conf_connect
          (ask (conf_connect m.conf_slot (pos 0)) p.conf_connect w).1).1
      else w)

  media_state_known : ℤ → Result CallInfo → World → World
  media_state_known id (err e) w = w
  media_state_known id (ok info) w =
      let connected =
        connect_call_audio_to_sound_dev info.media (apply_video_capture_device p id info w) in
      (push p "call_media_state" (build_call_media_state_data info) (
        log_negotiated_media p id info
          (arm_media_report p id (arm_video_watchdog p id info connected)))).1

  unfoldable pub on_call_media_state : ℤ → World → World
  unfolding media_state_known
  on_call_media_state id w = let r = query p id w in media_state_known id r.0 r.1

  -- `is_device_error` is whether there is an event, and it is PJMEDIA_EVENT_VID_DEV_ERROR.
  unfoldable pub on_call_media_event : ℤ → ℕ → Bool → World → World
  on_call_media_event id med_idx is_device_error w =
      if is_device_error then give_up_on_video p id med_idx w else w

  unfoldable pub start_ringing : ℤ → World → World
  start_ringing id w =
      if ltb 0 w.ring_timeout_sec
      then arm p ring_timer id (record { sec = w.ring_timeout_sec; msec = 0 }) (cancel ring_timer w)
      else w

  incoming_known : ℤ → Result CallInfo → World → World
  unfolding start_ringing
  incoming_known id (err e) w = w
  incoming_known id (ok info) w =
      (push p "incoming_call" (build_incoming_call_data info) (start_ringing id w)).1

  unfoldable pub on_incoming_call : ℤ → World → World
  unfolding incoming_known
  on_incoming_call id w =
      let r = query p id (record w { call_id = id }) in incoming_known id r.0 r.1
