-- ===== src/Call/Callbacks/Said.antt =====
-- What the callbacks and the timers of a call say.
use pjsocky.Call.{cancel, fired}
use pjsocky.Call.Callbacks.{
  build_call_state_data, build_call_media_state_data, build_incoming_call_data, reject_ringing,
  ring_timer_cb, stop_ringing, forget, call_state_known, on_call_state,
  connect_call_audio_to_sound_dev, media_state_known, on_call_media_state, on_call_media_event,
  start_ringing, incoming_known, on_incoming_call,
}
use pjsocky.Call.Callbacks.Watched.{
  Step, call_state, call_media_state, call_media_event, incoming_call, ring_timeout,
  watchdog_window, report_due,
}
use pjsocky.Call.Info.{is_active, same_type, is_confirmed, get_rtp_counters}
use pjsocky.Call.Info.Said.{get_rtp_counters-Silent}
use pjsocky.Call.Info.Words.{state_str-word}
use pjsocky.Call.Negotiated.{log_negotiated_media}
use pjsocky.Call.Negotiated.Said.{log_negotiated_media-Silent}
use pjsocky.Call.Report.{report_delay, present, report_call, media_report_cb, arm_media_report}
use pjsocky.Call.Said.{cancel-Silent, schedule-Silent, arm-Silent}
use pjsocky.Call.Video.{
  apply_video_capture_device, arm_video_watchdog, give_up_on_video, video_watchdog_cb,
}
use pjsocky.Call.Video.Said.{
  give_up_on_video-Silent, video_watchdog_cb-Silent, arm_video_watchdog-Silent,
  apply_video_capture_device-Silent,
}
use pjsocky.Events.{envelope}
use pjsocky.Events.Said.{push-Proper}
use pjsocky.Json.{add_bool, add_string, add_str, add_number, add_member}
use pjsocky.Pjlib.{
  Pjlib, call_get_info, CallInfo, Media, audio, video, ring_timer, media_report, media_log,
}
use pjsocky.Protocol.Message.{IsMessage, event}
use pjsocky.Protocol.Said.{Silent, Proper, Silent-Proper}
use pjsocky.World.{World}
use pjsocky.Prelude.{
  refl, ◌∙◌, true, false, ◌&&◌, List, [], ◌∷◌, arith, ltb, if-elim, ℤ, Result, ok, err,
}

call_state-IsMessage :
    (info : CallInfo) → IsMessage (envelope "call_state" (build_call_state_data info))
unfolding build_call_state_data envelope add_string add_str add_number add_member
call_state-IsMessage info = event _ _ (rw (state_str-word info.state) refl)

call_media_state-IsMessage :
    (info : CallInfo) → IsMessage (envelope "call_media_state" (build_call_media_state_data info))
unfolding build_call_media_state_data envelope add_bool add_string add_number add_member
call_media_state-IsMessage info = event _ _ refl

incoming_call-IsMessage :
    (info : CallInfo) → IsMessage (envelope "incoming_call" (build_incoming_call_data info))
unfolding build_incoming_call_data envelope add_bool add_string add_str add_number add_member
incoming_call-IsMessage info = event _ _ refl

module _ (p : Pjlib) where
  forget-Silent : (id : ℤ) (info : CallInfo) (w : World) → Silent w (forget p id info w)
  unfolding forget cancel
  forget-Silent id info w = ground arith

  stop_ringing-Silent : (id : ℤ) (info : CallInfo) (w : World) → Silent w (stop_ringing p id info w)
  unfolding stop_ringing cancel
  stop_ringing-Silent id info w = ground arith

  call_state_known-Proper :
      (id : ℤ) (r : Result CallInfo) (w : World) → Proper w → Proper (call_state_known p id r w)
  unfolding call_state_known
  call_state_known-Proper id (err e) w before = before
  call_state_known-Proper id (ok info) w before =
      let u = stop_ringing p id info w in
      let v = forget p id info u in
      push-Proper p _ _ v (call_state-IsMessage info)
        (Silent-Proper w v (forget-Silent id info u ∙ stop_ringing-Silent id info w) before)

  connect-Silent : (ms : List Media) (w : World) → Silent w (connect_call_audio_to_sound_dev p ms w)
  unfolding connect_call_audio_to_sound_dev
  connect-Silent [] w = refl
  connect-Silent (m ∷ ms) w =
      connect-Silent ms _
      ∙ if-elim (Silent w) (same_type m.type audio && is_active m.status) (λ e. refl) (λ e. refl)

  arm_media_report-Silent : (id : ℤ) (w : World) → Silent w (arm_media_report p id w)
  unfolding arm_media_report
  arm_media_report-Silent id w =
      arm-Silent p media_report id report_delay (cancel media_report w)
      ∙ cancel-Silent media_report w

  media_state_known-Proper :
      (id : ℤ) (r : Result CallInfo) (w : World) → Proper w → Proper (media_state_known p id r w)
  unfolding media_state_known
  media_state_known-Proper id (err e) w before = before
  media_state_known-Proper id (ok info) w before =
      let a = apply_video_capture_device p id info w in
      let b = connect_call_audio_to_sound_dev p info.media a in
      let c = arm_video_watchdog p id info b in
      let d = arm_media_report p id c in
      let e = log_negotiated_media p id info d in
      push-Proper p _ _ e (call_media_state-IsMessage info) (
        Silent-Proper w e
          (log_negotiated_media-Silent p id info d
            ∙ arm_media_report-Silent id c
            ∙ arm_video_watchdog-Silent p id info b
            ∙ connect-Silent info.media a
            ∙ apply_video_capture_device-Silent p id info w)
          before)

  start_ringing-Silent : (id : ℤ) (w : World) → Silent w (start_ringing p id w)
  unfolding start_ringing
  start_ringing-Silent id w =
      if-elim (Silent w) (ltb 0 w.ring_timeout_sec)
        (λ e. arm-Silent p ring_timer id _ (cancel ring_timer w) ∙ cancel-Silent ring_timer w)
        (λ e. refl)

  incoming_known-Proper :
      (id : ℤ) (r : Result CallInfo) (w : World) → Proper w → Proper (incoming_known p id r w)
  unfolding incoming_known
  incoming_known-Proper id (err e) w before = before
  incoming_known-Proper id (ok info) w before =
      let u = start_ringing p id w in
      push-Proper p _ _ u (incoming_call-IsMessage info)
        (Silent-Proper w u (start_ringing-Silent id w) before)

  reject_ringing-Silent :
      (id : ℤ) (r : Result CallInfo) (w : World) → Silent w (reject_ringing p id r w)
  unfolding reject_ringing
  reject_ringing-Silent id (err e) w = refl
  reject_ringing-Silent id (ok info) w = ground arith

  report_call-Silent : (id : ℤ) (r : Result CallInfo) (w : World) → Silent w (report_call p id r w)
  unfolding report_call
  report_call-Silent id (err e) w = refl
  report_call-Silent id (ok info) w =
      if-elim (Silent w) (is_confirmed info.state)
        (λ e.
          let a = get_rtp_counters p id audio w in
          let v = get_rtp_counters p id video a.1 in
          schedule-Silent p media_report report_delay
            (record (v.1) { history = media_log id (present a.0) (present v.0) ∷ v.1.history })
          ∙ get_rtp_counters-Silent p id video a.1
          ∙ get_rtp_counters-Silent p id audio w)
        (λ e. refl)

-- Whatever happens to the calls: what is said is messages.
pub Step-Proper : (p : Pjlib) (w v : World) → Step p w v → Proper w → Proper v
unfolding on_call_state on_call_media_state on_call_media_event on_incoming_call ring_timer_cb
    media_report_cb
Step-Proper p w _ (call_state id _) before =
    let v = record w { history = call_get_info id ∷ w.history } in
    call_state_known-Proper p id (p.call_get_info v.history) v before
Step-Proper p w _ (call_media_state id _) before =
    let v = record w { history = call_get_info id ∷ w.history } in
    media_state_known-Proper p id (p.call_get_info v.history) v before
Step-Proper p w _ (call_media_event id m true _) before =
    Silent-Proper w (give_up_on_video p id m w) (give_up_on_video-Silent p id m w) before
Step-Proper p w _ (call_media_event id m false _) before = before
Step-Proper p w _ (incoming_call id _) before =
    let v = record (record w { call_id = id }) { history = call_get_info id ∷ w.history } in
    incoming_known-Proper p id (p.call_get_info v.history) v before
Step-Proper p w _ (ring_timeout _ on) before =
    let v = record (fired ring_timer w) { history = call_get_info w.ring.user_data ∷ w.history } in
    Silent-Proper w (reject_ringing p w.ring.user_data (p.call_get_info v.history) v)
      (reject_ringing-Silent p w.ring.user_data (p.call_get_info v.history) v) before
Step-Proper p w _ (watchdog_window _ on) before =
    Silent-Proper w (video_watchdog_cb p w) (video_watchdog_cb-Silent p w) before
Step-Proper p w _ (report_due _ on) before =
    let v = record (fired media_report w) {
      history = call_get_info w.report.user_data ∷ w.history;
    } in
    Silent-Proper w (report_call p w.report.user_data (p.call_get_info v.history) v)
      (report_call-Silent p w.report.user_data (p.call_get_info v.history) v) before
