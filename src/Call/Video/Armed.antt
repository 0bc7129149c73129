-- ===== src/Call/Video/Armed.antt =====
-- The watchdog's invariant: when it is armed.
use pjsocky.Call.{cancel, schedule, arm, fired}
use pjsocky.Call.Info.{
  is_confirmed, find_sending_video, get_rtp_counters, get_rtp_counters-SameState,
}
use pjsocky.Call.Video.{
  allowed_ticks, give_up_on_video, is_moving, sent_packets, watch, watch_stream, watch_call,
  video_watchdog_cb, arm_for, arm_video_watchdog, set_vid_strm,
}
use pjsocky.Pjlib.{Pjlib, CallInfo, video, StreamStat, video_watchdog, call_get_info}
use pjsocky.World.{World}
use pjsocky.Prelude.{
  ℕ, ◌<◌, ◌≡◌, refl, sym, subst, inl, inr, true, false, Option, none, some, ◌∷◌, arith, Bool-cases,
  ℤ, is_equal, Result, ok, err,
}

-- The watchdog is armed only for a call whose video has not been given up, and only while the stream
-- may still be silent for a window more.
abbrev pub WatchdogOk : World → Type 0
WatchdogOk w =
    w.watchdog.scheduled ≡ true
    → (w.video_stall_ticks < allowed_ticks w.video_tx_packets_seen)
      × (is_equal w.watchdog.user_data w.video_failed_call_id ≡ false)

pub cancel-scheduled : (w : World) → (cancel video_watchdog w).watchdog.scheduled ≡ false
unfolding cancel
cancel-scheduled w = ground arith

module _ (p : Pjlib) where
  pub give_up-WatchdogOk :
      (id : ℤ) (m : ℕ) (w : World) → WatchdogOk w → WatchdogOk (give_up_on_video p id m w)
  unfolding give_up_on_video set_vid_strm cancel
  give_up-WatchdogOk id m w ok_before = ground arith

  arm_for-WatchdogOk :
      (id : ℤ) (m : Option ℕ) (w : World)
      → w.watchdog.scheduled ≡ false
      → WatchdogOk (arm_for p id m w)
  unfolding arm_for arm schedule
  arm_for-WatchdogOk id none w off on = ground arith
  arm_for-WatchdogOk id (some m) w off on = ground arith

  watch-WatchdogOk :
      (m : ℕ) (stat : Result StreamStat) (w : World)
      → w.watchdog.scheduled ≡ false
      → is_equal w.watchdog.user_data w.video_failed_call_id ≡ false
      → WatchdogOk (watch p w.watchdog.user_data m stat w)
  unfolding watch give_up_on_video is_moving sent_packets schedule set_vid_strm cancel
  watch-WatchdogOk m (err e) w off other = ground arith
  watch-WatchdogOk m (ok stat) w off other = ground arith

  watch_stream-WatchdogOk :
      (m : Option ℕ) (w : World)
      → w.watchdog.scheduled ≡ false
      → is_equal w.watchdog.user_data w.video_failed_call_id ≡ false
      → WatchdogOk (watch_stream p w.watchdog.user_data m w)
  unfolding watch_stream
  watch_stream-WatchdogOk none w off other = λ on. ground arith
  watch_stream-WatchdogOk (some m) w off other =
      let id = w.watchdog.user_data in
      let v = record w { history = (get_rtp_counters p id video w).1.history } in
      subst (λ x. WatchdogOk (watch p id m (get_rtp_counters p id video w).0 x))
        (sym (get_rtp_counters-SameState p id video w))
        (watch-WatchdogOk m (get_rtp_counters p id video w).0 v off other)

  watch_call-WatchdogOk :
      (r : Result CallInfo) (w : World)
      → w.watchdog.scheduled ≡ false
      → is_equal w.watchdog.user_data w.video_failed_call_id ≡ false
      → WatchdogOk (watch_call p w.watchdog.user_data r w)
  unfolding watch_call
  watch_call-WatchdogOk (err e) w off other = λ on. ground arith
  watch_call-WatchdogOk (ok info) w off other = elim (Bool-cases (is_confirmed info.state)) [
    | inl e ↦ rw e (watch_stream-WatchdogOk (find_sending_video info.media) w off other)
    | inr e ↦ rw e (λ on. ground arith)
  ]

  -- The timer's callback runs only on an entry that is scheduled.
  pub video_watchdog_cb-WatchdogOk :
      (w : World) → w.watchdog.scheduled ≡ true → WatchdogOk w → WatchdogOk (video_watchdog_cb p w)
  unfolding video_watchdog_cb
  video_watchdog_cb-WatchdogOk w on before =
      let v = record (fired video_watchdog w) {
        history = call_get_info w.watchdog.user_data ∷ w.history;
      } in
      watch_call-WatchdogOk (p.call_get_info v.history) v refl (before on).1

  pub arm_video_watchdog-WatchdogOk :
      (id : ℤ) (info : CallInfo) (w : World) → WatchdogOk (arm_video_watchdog p id info w)
  unfolding arm_video_watchdog
  arm_video_watchdog-WatchdogOk id info w =
      arm_for-WatchdogOk id (find_sending_video info.media) (cancel video_watchdog w)
        (cancel-scheduled w)
