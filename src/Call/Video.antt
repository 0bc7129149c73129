-- ===== src/Call/Video.antt =====
-- src/call.c: the video of a call: its capture device, the watchdog over a stream that sends nothing,
-- and giving up on it.
pub mod Armed
pub mod Watchdog
pub mod Keeps
pub mod Said
use pjsocky.Call.{cancel, fired, schedule, arm}
use pjsocky.Call.Info.{find_sending_video, has_active, is_confirmed, query, get_rtp_counters}
use pjsocky.Pjlib.{
  Pjlib, CallInfo, video, VideoOp, remove, change_cap_dev, video_watchdog, Delay, StreamStat,
  call_set_vid_strm, invalid_dev,
}
use pjsocky.World.{World, ask, device_get_video_capture}
use pjsocky.Prelude.{
  ℕ, ◌+◌, ◌/◌, ◌%◌, ◌^◌, Bool, false, Option, none, some, ltb, leb, ◌==◌, if◌then◌else◌, ℤ,
  is_equal, pos, Result, ok, err,
}

-- PJSOCKY_VIDEO_WATCHDOG_MSEC
abbrev pub watchdog_msec : ℕ
watchdog_msec = 3000

abbrev pub watchdog_delay : Delay
watchdog_delay = record { sec = watchdog_msec / 1000; msec = watchdog_msec % 1000 }

-- The windows that a stream may stay silent: one if it has ever sent, two if not.
abbrev pub allowed_ticks : ℕ → ℕ
allowed_ticks seen = if seen == 0 then 2 else 1

module _ (p : Pjlib) where
  -- pjsua_call_set_vid_strm(); its status is only logged.
  set_vid_strm : ℤ → VideoOp → World → World
  set_vid_strm id op w = (ask (call_set_vid_strm id op) p.call_set_vid_strm w).1

  unfoldable pub give_up_on_video : ℤ → ℕ → World → World
  unfolding set_vid_strm
  give_up_on_video id med_idx w =
      if is_equal id w.video_failed_call_id
      then w
      else set_vid_strm id (remove (pos med_idx))
          (cancel video_watchdog (record w { video_failed_call_id = id }))

  -- The comparison of the counter with the last one seen.
  unfoldable pub is_moving : Result StreamStat → World → Bool
  is_moving (err e) w = false
  is_moving (ok stat) w = ltb w.video_tx_packets_seen stat.tx

  sent_packets : Result StreamStat → ℕ
  sent_packets (err e) = 0
  sent_packets (ok stat) = stat.tx

  watch : ℤ → ℕ → Result StreamStat → World → World
  unfolding give_up_on_video is_moving sent_packets
  watch id med_idx stat w =
      if is_moving stat w
      then schedule p video_watchdog watchdog_delay
          (record w { video_tx_packets_seen = sent_packets stat; video_stall_ticks = 0 })
      else let v = record w { video_stall_ticks = (w.video_stall_ticks + 1) % 2 ^ 32 } in
        if leb (allowed_ticks w.video_tx_packets_seen) v.video_stall_ticks
        then give_up_on_video id med_idx v
        else schedule p video_watchdog watchdog_delay v

  watch_stream : ℤ → Option ℕ → World → World
  unfolding watch
  watch_stream id none w = w
  watch_stream id (some med_idx) w =
      let r = get_rtp_counters p id video w in watch id med_idx r.0 r.1

  watch_call : ℤ → Result CallInfo → World → World
  unfolding watch_stream
  watch_call id (err e) w = w
  watch_call id (ok info) w =
      if is_confirmed info.state then watch_stream id (find_sending_video info.media) w else w

  unfoldable pub video_watchdog_cb : World → World
  unfolding watch_call
  video_watchdog_cb w =
      let id = w.watchdog.user_data in
      let r = query p id (fired video_watchdog w) in watch_call id r.0 r.1

  arm_for : ℤ → Option ℕ → World → World
  arm_for id none w = w
  arm_for id (some med_idx) w =
      if is_equal id w.video_failed_call_id
      then w
      else arm p video_watchdog id watchdog_delay
          (record w { video_tx_packets_seen = 0; video_stall_ticks = 0 })

  unfoldable pub arm_video_watchdog : ℤ → CallInfo → World → World
  unfolding arm_for
  arm_video_watchdog id info w =
      arm_for id (find_sending_video info.media) (cancel video_watchdog w)

  unfoldable pub apply_video_capture_device : ℤ → CallInfo → World → World
  unfolding set_vid_strm
  apply_video_capture_device id info w =
      let cap_dev = device_get_video_capture w in
      if is_equal cap_dev invalid_dev
      then w
      else if has_active video info.media
      then set_vid_strm id (change_cap_dev cap_dev) w
      else w
