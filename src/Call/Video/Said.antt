-- ===== src/Call/Video/Said.antt =====
-- The watchdog and the functions of the video say nothing.
use pjsocky.Call.Said.{cancel-Silent, schedule-Silent, arm-Silent}
use pjsocky.Call.Info.Said.{get_rtp_counters-Silent}
use pjsocky.Call.{cancel, fired}
use pjsocky.Protocol.Said.{Silent}
use pjsocky.Call.Info.{find_sending_video, is_confirmed, get_rtp_counters}
use pjsocky.Call.Video.{
  give_up_on_video, set_vid_strm, is_moving, sent_packets, watch, watch_stream, watch_call,
  video_watchdog_cb, arm_for, arm_video_watchdog, watchdog_delay, allowed_ticks,
  apply_video_capture_device,
}
use pjsocky.Pjlib.{Pjlib, CallInfo, StreamStat, video, video_watchdog, call_get_info}
use pjsocky.World.{World}
use pjsocky.Prelude.{
  ℕ, ◌+◌, ◌%◌, ◌^◌, refl, ◌∙◌, Option, none, some, ◌∷◌, arith, leb, if-elim, ℤ, is_equal, Result,
  ok, err,
}

module _ (p : Pjlib) where
  pub give_up_on_video-Silent : (id : ℤ) (m : ℕ) (w : World) → Silent w (give_up_on_video p id m w)
  unfolding give_up_on_video set_vid_strm cancel
  give_up_on_video-Silent id m w = ground arith

  watch-Silent :
      (id : ℤ) (m : ℕ) (stat : Result StreamStat) (w : World) → Silent w (watch p id m stat w)
  unfolding watch
  watch-Silent id m stat w =
      if-elim (Silent w) (is_moving p stat w)
        (λ e.
          (schedule-Silent p video_watchdog watchdog_delay
            (record w { video_tx_packets_seen = sent_packets p stat; video_stall_ticks = 0 })))
        (λ e.
          let v = record w { video_stall_ticks = (w.video_stall_ticks + 1) % 2 ^ 32 } in
          (if-elim (Silent v) (leb (allowed_ticks w.video_tx_packets_seen) v.video_stall_ticks)
            (λ late. give_up_on_video-Silent id m v)
            (λ early. schedule-Silent p video_watchdog watchdog_delay v)))

  watch_stream-Silent : (id : ℤ) (m : Option ℕ) (w : World) → Silent w (watch_stream p id m w)
  unfolding watch_stream
  watch_stream-Silent id none w = refl
  watch_stream-Silent id (some m) w =
      let r = get_rtp_counters p id video w in
      watch-Silent id m r.0 r.1 ∙ get_rtp_counters-Silent p id video w

  watch_call-Silent : (id : ℤ) (r : Result CallInfo) (w : World) → Silent w (watch_call p id r w)
  unfolding watch_call
  watch_call-Silent id (err e) w = refl
  watch_call-Silent id (ok info) w =
      if-elim (Silent w) (is_confirmed info.state)
        (λ e. watch_stream-Silent id (find_sending_video info.media) w) (λ e. refl)

  pub video_watchdog_cb-Silent : (w : World) → Silent w (video_watchdog_cb p w)
  unfolding video_watchdog_cb
  video_watchdog_cb-Silent w =
      let v = record (fired video_watchdog w) {
        history = call_get_info w.watchdog.user_data ∷ w.history;
      } in
      watch_call-Silent w.watchdog.user_data (p.call_get_info v.history) v

  arm_for-Silent : (id : ℤ) (m : Option ℕ) (w : World) → Silent w (arm_for p id m w)
  unfolding arm_for
  arm_for-Silent id none w = refl
  arm_for-Silent id (some m) w =
      if-elim (Silent w) (is_equal id w.video_failed_call_id) (λ e. refl)
        (λ e.
          (arm-Silent p video_watchdog id watchdog_delay
            (record w { video_tx_packets_seen = 0; video_stall_ticks = 0 })))

  pub arm_video_watchdog-Silent :
      (id : ℤ) (info : CallInfo) (w : World) → Silent w (arm_video_watchdog p id info w)
  unfolding arm_video_watchdog
  arm_video_watchdog-Silent id info w =
      arm_for-Silent id (find_sending_video info.media) (cancel video_watchdog w)
      ∙ cancel-Silent video_watchdog w

  pub apply_video_capture_device-Silent :
      (id : ℤ) (info : CallInfo) (w : World) → Silent w (apply_video_capture_device p id info w)
  unfolding apply_video_capture_device set_vid_strm
  apply_video_capture_device-Silent id info w = ground arith
