-- ===== src/Call/Callbacks/Keeps.antt =====
-- What the callbacks leave alone.
use pjsocky.Call.{cancel, fired}
use pjsocky.Call.Callbacks.{
  reject_ringing, ring_timer_cb, stop_ringing, forget, call_state_known, on_call_state,
  connect_call_audio_to_sound_dev, media_state_known, on_call_media_state, on_call_media_event,
  start_ringing, incoming_known, on_incoming_call,
}
use pjsocky.Call.Callbacks.Watched.{
  Step, call_state, call_media_state, call_media_event, incoming_call, ring_timeout,
  watchdog_window, report_due,
}
use pjsocky.Call.Frame.{
  CallFrame, CallFrame-trans, SameState-CallFrame, cancel-CallFrame, schedule-CallFrame,
  arm-CallFrame,
}
use pjsocky.Call.Info.{
  is_active, same_type, is_confirmed, get_rtp_counters, get_rtp_counters-SameState,
}
use pjsocky.Call.Negotiated.{log_negotiated_media}
use pjsocky.Call.Negotiated.Lines.{log_negotiated_media-Logs}
use pjsocky.Call.Report.{report_delay, present, report_call, media_report_cb, arm_media_report}
use pjsocky.Call.Video.{apply_video_capture_device, arm_video_watchdog}
use pjsocky.Call.Video.Keeps.{
  give_up_on_video-CallFrame, video_watchdog_cb-CallFrame, arm_video_watchdog-CallFrame,
  apply_video_capture_device-CallFrame,
}
use pjsocky.Events.Push.{push-SameState}
use pjsocky.Events.{push}
use pjsocky.Json.{Members}
use pjsocky.Pjlib.{
  Pjlib, call_get_info, CallInfo, Media, audio, video, ring_timer, media_report, media_log,
}
use pjsocky.World.{World}
use pjsocky.Prelude.{
  String, refl, true, false, ◌&&◌, List, [], ◌∷◌, arith, ltb, if-elim, ℤ, Result, ok, err,
}

module _ (p : Pjlib) where
  push-CallFrame :
      (name : String) (members : Members) (w : World) → CallFrame w (push p name members w).1
  push-CallFrame name members w = SameState-CallFrame w _ (push-SameState p name members w)

  forget-CallFrame : (id : ℤ) (info : CallInfo) (w : World) → CallFrame w (forget p id info w)
  unfolding forget cancel
  forget-CallFrame id info w = ground arith

  stop_ringing-CallFrame :
      (id : ℤ) (info : CallInfo) (w : World) → CallFrame w (stop_ringing p id info w)
  unfolding stop_ringing cancel
  stop_ringing-CallFrame id info w = ground arith

  call_state_known-CallFrame :
      (id : ℤ) (r : Result CallInfo) (w : World) → CallFrame w (call_state_known p id r w)
  unfolding call_state_known
  call_state_known-CallFrame id (err e) w = refl
  call_state_known-CallFrame id (ok info) w =
      let u = stop_ringing p id info w in
      let v = forget p id info u in
      CallFrame-trans w u _ (stop_ringing-CallFrame id info w)
        (CallFrame-trans u v _ (forget-CallFrame id info u) (push-CallFrame _ _ v))

  connect-CallFrame :
      (ms : List Media) (w : World) → CallFrame w (connect_call_audio_to_sound_dev p ms w)
  unfolding connect_call_audio_to_sound_dev
  connect-CallFrame [] w = refl
  connect-CallFrame (m ∷ ms) w =
      CallFrame-trans w _ _
        (if-elim (CallFrame w) (same_type m.type audio && is_active m.status) (λ e. refl)
          (λ e. refl))
        (connect-CallFrame ms _)

  arm_media_report-CallFrame : (id : ℤ) (w : World) → CallFrame w (arm_media_report p id w)
  unfolding arm_media_report
  arm_media_report-CallFrame id w =
      CallFrame-trans w (cancel media_report w) _ (cancel-CallFrame media_report w)
        (arm-CallFrame p media_report id report_delay (cancel media_report w))

  media_state_known-CallFrame :
      (id : ℤ) (r : Result CallInfo) (w : World) → CallFrame w (media_state_known p id r w)
  unfolding media_state_known
  media_state_known-CallFrame id (err e) w = refl
  media_state_known-CallFrame id (ok info) w =
      let a = apply_video_capture_device p id info w in
      let b = connect_call_audio_to_sound_dev p info.media a in
      let c = arm_video_watchdog p id info b in
      let d = arm_media_report p id c in
      let e = log_negotiated_media p id info d in
      CallFrame-trans w a _ (apply_video_capture_device-CallFrame p id info w) (
        CallFrame-trans a b _ (connect-CallFrame info.media a) (
          CallFrame-trans b c _ (arm_video_watchdog-CallFrame p id info b) (
            CallFrame-trans c d _ (arm_media_report-CallFrame id c) (
              CallFrame-trans d e _
                (SameState-CallFrame d e (log_negotiated_media-Logs p id info d).0)
                (push-CallFrame _ _ e)))))

  start_ringing-CallFrame : (id : ℤ) (w : World) → CallFrame w (start_ringing p id w)
  unfolding start_ringing
  start_ringing-CallFrame id w =
      if-elim (CallFrame w) (ltb 0 w.ring_timeout_sec)
        (λ e.
          CallFrame-trans w (cancel ring_timer w) _ (cancel-CallFrame ring_timer w)
            (arm-CallFrame p ring_timer id _ (cancel ring_timer w)))
        (λ e. refl)

  incoming_known-CallFrame :
      (id : ℤ) (r : Result CallInfo) (w : World) → CallFrame w (incoming_known p id r w)
  unfolding incoming_known
  incoming_known-CallFrame id (err e) w = refl
  incoming_known-CallFrame id (ok info) w =
      let u = start_ringing p id w in
      CallFrame-trans w u _ (start_ringing-CallFrame id w) (push-CallFrame _ _ u)

  reject_ringing-CallFrame :
      (id : ℤ) (r : Result CallInfo) (w : World) → CallFrame w (reject_ringing p id r w)
  unfolding reject_ringing
  reject_ringing-CallFrame id (err e) w = refl
  reject_ringing-CallFrame id (ok info) w = ground arith

  report_call-CallFrame :
      (id : ℤ) (r : Result CallInfo) (w : World) → CallFrame w (report_call p id r w)
  unfolding report_call
  report_call-CallFrame id (err e) w = refl
  report_call-CallFrame id (ok info) w =
      if-elim (CallFrame w) (is_confirmed info.state)
        (λ e.
          let a = get_rtp_counters p id audio w in
          let v = get_rtp_counters p id video a.1 in
          CallFrame-trans w a.1 _
            (SameState-CallFrame w a.1 (get_rtp_counters-SameState p id audio w))
            (CallFrame-trans a.1 v.1 _
              (SameState-CallFrame a.1 v.1 (get_rtp_counters-SameState p id video a.1))
              ((schedule-CallFrame p media_report report_delay (record (v.1) {
                history = media_log id (present a.0) (present v.0) ∷ v.1.history;
              })))))
        (λ e. refl)

-- Whatever happens to the calls, a callback or a timer that fires: the account and its registration,
-- the camera, the ring timeout that is configured and the client's connection stay as they are.
pub Step-CallFrame : (p : Pjlib) (w v : World) → Step p w v → CallFrame w v
unfolding on_call_state on_call_media_state on_call_media_event on_incoming_call ring_timer_cb
    media_report_cb
Step-CallFrame p w _ (call_state id _) =
    let v = record (w) { history = call_get_info id ∷ w.history } in
    call_state_known-CallFrame p id (p.call_get_info v.history) v
Step-CallFrame p w _ (call_media_state id _) =
    let v = record (w) { history = call_get_info id ∷ w.history } in
    media_state_known-CallFrame p id (p.call_get_info v.history) v
Step-CallFrame p w _ (call_media_event id m true _) = give_up_on_video-CallFrame p id m w
Step-CallFrame p w _ (call_media_event id m false _) = refl
Step-CallFrame p w _ (incoming_call id _) =
    let v = record (record w { call_id = id }) { history = call_get_info id ∷ w.history } in
    incoming_known-CallFrame p id (p.call_get_info v.history) v
Step-CallFrame p w _ (ring_timeout _ on) =
    let v = record (fired ring_timer w) { history = call_get_info w.ring.user_data ∷ w.history } in
    reject_ringing-CallFrame p w.ring.user_data (p.call_get_info v.history) v
Step-CallFrame p w _ (watchdog_window _ on) = video_watchdog_cb-CallFrame p w
Step-CallFrame p w _ (report_due _ on) =
    let v = record (fired media_report w) {
      history = call_get_info w.report.user_data ∷ w.history;
    } in
    report_call-CallFrame p w.report.user_data (p.call_get_info v.history) v
