-- ===== src/Call/Video/Keeps.antt =====
-- What the watchdog and the video's functions leave alone.
use pjsocky.Call.{cancel, fired}
use pjsocky.Call.Frame.{
  CallFrame, CallFrame-trans, SameState-CallFrame, cancel-CallFrame, schedule-CallFrame,
  arm-CallFrame,
}
use pjsocky.Call.Info.{
  find_sending_video, is_confirmed, get_rtp_counters, get_rtp_counters-SameState,
}
use pjsocky.Call.Video.{
  give_up_on_video, set_vid_strm, is_moving, sent_packets, watch, watch_stream, watch_call,
  video_watchdog_cb, arm_for, arm_video_watchdog, watchdog_delay, allowed_ticks,
  apply_video_capture_device,
}
use pjsocky.Pjlib.{Pjlib, CallInfo, StreamStat, video, video_watchdog, call_get_info}
use pjsocky.World.{World}
use pjsocky.Prelude.{
  ℕ, ◌+◌, ◌%◌, ◌^◌, refl, Option, none, some, ◌∷◌, arith, leb, if-elim, ℤ, is_equal, Result, ok,
  err,
}

module _ (p : Pjlib) where
  pub give_up_on_video-CallFrame :
      (id : ℤ) (m : ℕ) (w : World) → CallFrame w (give_up_on_video p id m w)
  unfolding give_up_on_video set_vid_strm cancel
  give_up_on_video-CallFrame id m w = ground arith

  watch-CallFrame :
      (id : ℤ) (m : ℕ) (stat : Result StreamStat) (w : World) → CallFrame w (watch p id m stat w)
  unfolding watch
  watch-CallFrame id m stat w =
      if-elim (CallFrame w) (is_moving p stat w)
        (λ e.
          (schedule-CallFrame p video_watchdog watchdog_delay
            (record w { video_tx_packets_seen = sent_packets p stat; video_stall_ticks = 0 })))
        (λ e.
          let v = record w { video_stall_ticks = (w.video_stall_ticks + 1) % 2 ^ 32 } in
          (if-elim (CallFrame v) (leb (allowed_ticks w.video_tx_packets_seen) v.video_stall_ticks)
            (λ late. give_up_on_video-CallFrame id m v)
            (λ early. schedule-CallFrame p video_watchdog watchdog_delay v)))

  watch_stream-CallFrame : (id : ℤ) (m : Option ℕ) (w : World) → CallFrame w (watch_stream p id m w)
  unfolding watch_stream
  watch_stream-CallFrame id none w = refl
  watch_stream-CallFrame id (some m) w =
      let r = get_rtp_counters p id video w in
      CallFrame-trans w r.1 _ (SameState-CallFrame w r.1 (get_rtp_counters-SameState p id video w))
        (watch-CallFrame id m r.0 r.1)

  watch_call-CallFrame :
      (id : ℤ) (r : Result CallInfo) (w : World) → CallFrame w (watch_call p id r w)
  unfolding watch_call
  watch_call-CallFrame id (err e) w = refl
  watch_call-CallFrame id (ok info) w =
      if-elim (CallFrame w) (is_confirmed info.state)
        (λ e. watch_stream-CallFrame id (find_sending_video info.media) w) (λ e. refl)

  pub video_watchdog_cb-CallFrame : (w : World) → CallFrame w (video_watchdog_cb p w)
  unfolding video_watchdog_cb
  video_watchdog_cb-CallFrame w =
      let v = record (fired video_watchdog w) {
        history = call_get_info w.watchdog.user_data ∷ w.history;
      } in
      watch_call-CallFrame w.watchdog.user_data (p.call_get_info v.history) v

  arm_for-CallFrame : (id : ℤ) (m : Option ℕ) (w : World) → CallFrame w (arm_for p id m w)
  unfolding arm_for
  arm_for-CallFrame id none w = refl
  arm_for-CallFrame id (some m) w =
      if-elim (CallFrame w) (is_equal id w.video_failed_call_id) (λ e. refl)
        (λ e.
          (arm-CallFrame p video_watchdog id watchdog_delay
            (record w { video_tx_packets_seen = 0; video_stall_ticks = 0 })))

  pub arm_video_watchdog-CallFrame :
      (id : ℤ) (info : CallInfo) (w : World) → CallFrame w (arm_video_watchdog p id info w)
  unfolding arm_video_watchdog
  arm_video_watchdog-CallFrame id info w =
      CallFrame-trans w (cancel video_watchdog w) _ (cancel-CallFrame video_watchdog w)
        (arm_for-CallFrame id (find_sending_video info.media) (cancel video_watchdog w))

  pub apply_video_capture_device-CallFrame :
      (id : ℤ) (info : CallInfo) (w : World) → CallFrame w (apply_video_capture_device p id info w)
  unfolding apply_video_capture_device set_vid_strm
  apply_video_capture_device-CallFrame id info w = ground arith
