-- ===== src/Call/Video/Watchdog.antt =====
-- When the watchdog over a video stream that sends nothing gives up.
use pjsocky.Call.{cancel, schedule, fired}
use pjsocky.Call.Info.{
  is_confirmed, find_sending_video, get_rtp_counters, get_rtp_counters-SameState,
}
use pjsocky.Call.Video.{
  allowed_ticks, give_up_on_video, is_moving, watch, watch_stream, watch_call, video_watchdog_cb,
  set_vid_strm,
}
use pjsocky.Pjlib.{
  Pjlib, History, CallInfo, video, StreamStat, video_watchdog, call_get_info, call_set_vid_strm,
  remove, latest,
}
use pjsocky.World.{World}
use pjsocky.Prelude.{
  ℕ, ◌+◌, ◌<◌, ◌≡◌, refl, ap, ◌∙◌, subst, true, false, some, ◌∷◌, arith, ltb, ℤ, is_equal,
  is_equal_refl, pos, Result, ok, err,
}

-- Giving up on a call's video a second time, from the watchdog or from an event, does nothing.
give_up_once :
    (p : Pjlib) (id : ℤ) (m n : ℕ) (w : World)
    → give_up_on_video p id n (give_up_on_video p id m w) ≡ give_up_on_video p id m w
unfolding give_up_on_video set_vid_strm cancel
give_up_once p id m n w = ground (arith, is_equal_refl id)

-- What each window of the watchdog finds at a call: it is established and sends video on stream `m`,
-- whose counter is read as `stat`.
abbrev pub Sends : Pjlib → ℤ → ℕ → Result StreamStat → Type 0
Sends p id m stat =
    (h : History)
    → (info : CallInfo) × (p.call_get_info (call_get_info id ∷ h) ≡ ok info)
      × (is_confirmed info.state ≡ true)
      × (find_sending_video info.media ≡ some m)
      × ((v : World) → (get_rtp_counters p id video v).0 ≡ stat)

module _ (p : Pjlib) (id : ℤ) (m : ℕ) (stat : Result StreamStat) where
  watch_call-confirmed :
      (info : CallInfo) (w : World)
      → is_confirmed info.state ≡ true
      → find_sending_video info.media ≡ some m
      → watch_call p id (ok info) w
        ≡ watch p id m (get_rtp_counters p id video w).0 (get_rtp_counters p id video w).1
  unfolding watch_call watch_stream
  watch_call-confirmed info w a b = rw (a, b) refl

  abbrev pub GivenUp : World → Type 0
  GivenUp v =
      (v.video_failed_call_id ≡ id)
      × (v.watchdog.scheduled ≡ false)
      × (latest v.history ≡ some (call_set_vid_strm id (remove (pos m))))

  -- A silent window: the last one that is allowed ends the video, an earlier one only counts.
  silent_window :
      (w : World)
      → w.watchdog.scheduled ≡ false
      → is_moving p stat w ≡ false
      → is_equal id w.video_failed_call_id ≡ false
      → w.video_stall_ticks < allowed_ticks w.video_tx_packets_seen
      → let v = watch p id m stat w in
        (w.video_stall_ticks + 1 ≡ allowed_ticks w.video_tx_packets_seen → GivenUp v)
        × (w.video_stall_ticks + 1 < allowed_ticks w.video_tx_packets_seen
            → (v.video_failed_call_id ≡ w.video_failed_call_id)
              × (v.video_stall_ticks ≡ w.video_stall_ticks + 1)
              × (v.video_tx_packets_seen ≡ w.video_tx_packets_seen)
              × (v.watchdog.user_data ≡ w.watchdog.user_data))
  unfolding watch give_up_on_video set_vid_strm cancel schedule
  silent_window w off still other early = ground arith

-- One window in terms of `watch`.
window :
    (p : Pjlib) (m : ℕ) (stat : Result StreamStat) (w : World)
    → Sends p w.watchdog.user_data m stat
    → (h : History) × (video_watchdog_cb p w
        ≡ watch p w.watchdog.user_data m stat (record (fired video_watchdog w) { history = h }))
unfolding video_watchdog_cb
window p m stat w sends =
    let id = w.watchdog.user_data in
    let (info, known, confirmed, sending, counted) = sends w.history in
    let v = record (fired video_watchdog w) { history = call_get_info id ∷ w.history } in
    (
      (get_rtp_counters p id video v).1.history,
      ap (λ r. watch_call p id r v) known
          ∙ watch_call-confirmed p id m stat info v confirmed sending
          ∙ ap (λ s. watch p id m s (get_rtp_counters p id video v).1) (counted v)
          ∙ ap (watch p id m stat) (get_rtp_counters-SameState p id video v),
    )

-- The stream is silent, and its call is one whose video has not been given up.
pub record Silent (p : Pjlib) (id : ℤ) (m : ℕ) (stat : Result StreamStat) (w : World) : Type 0 where
  pub armed : w.watchdog.user_data ≡ id
  pub sends : Sends p id m stat
  pub still : is_moving p stat w ≡ false
  pub other : is_equal id w.video_failed_call_id ≡ false

is_moving-seen :
    (p : Pjlib) (stat : Result StreamStat) (v w : World)
    → v.video_tx_packets_seen ≡ w.video_tx_packets_seen
    → is_moving p stat v ≡ is_moving p stat w
unfolding is_moving
is_moving-seen p (err e) v w h = refl
is_moving-seen p (ok stat) v w h = ap (λ n. ltb n stat.tx) h

module _ (p : Pjlib) (id : ℤ) (m : ℕ) (stat : Result StreamStat) where
  window_of :
      (w : World)
      → Silent p id m stat w
      → (h : History) × (video_watchdog_cb p w
          ≡ watch p id m stat (record (fired video_watchdog w) { history = h }))
  window_of w silent =
      subst
        (λ i.
          Sends p i m stat
          → (h : History) × (video_watchdog_cb p w
              ≡ watch p i m stat (record (fired video_watchdog w) { history = h })))
        silent.armed (window p m stat w) silent.sends

  -- What a window that finds the stream silent comes to.
  Window : World → World → Type 0
  Window w v =
      (w.video_stall_ticks + 1 ≡ allowed_ticks w.video_tx_packets_seen → GivenUp p id m stat v)
      × (w.video_stall_ticks + 1 < allowed_ticks w.video_tx_packets_seen
          → (v.video_failed_call_id ≡ w.video_failed_call_id)
            × (v.video_stall_ticks ≡ w.video_stall_ticks + 1)
            × (v.video_tx_packets_seen ≡ w.video_tx_packets_seen)
            × (v.watchdog.user_data ≡ w.watchdog.user_data))

  video_watchdog_cb-Window :
      (w : World)
      → Silent p id m stat w
      → w.video_stall_ticks < allowed_ticks w.video_tx_packets_seen
      → Window w (video_watchdog_cb p w)
  unfolding Window
  video_watchdog_cb-Window w silent early =
      let (h, e) = window_of w silent in
      let v = record (fired video_watchdog w) { history = h } in
      rw e (
        silent_window p id m stat v refl (is_moving-seen p stat v w refl ∙ silent.still)
          silent.other early)

  Silent-after :
      (w v : World)
      → Silent p id m stat w
      → v.video_failed_call_id ≡ w.video_failed_call_id
      → v.video_tx_packets_seen ≡ w.video_tx_packets_seen
      → v.watchdog.user_data ≡ w.watchdog.user_data
      → Silent p id m stat v
  Silent-after w v silent a b c = record {
    armed = c ∙ silent.armed;
    sends = silent.sends;
    still = is_moving-seen p stat v w b ∙ silent.still;
    other = rw a silent.other;
  }

-- A stream that has sent packets is given up at the first window that finds none more; one that has
-- never sent is given up at the second and not at the first. Given up means that the call is
-- marked, that the watchdog rests, and that the last request takes the stream off the call. The
-- condition is that each window finds the call established and sending video on one stream, with a
-- packet counter that cannot be read or does not exceed what the watchdog has seen, that the call's
-- video has not been given up, and that no silent window was counted yet.
pub video_watchdog_cb-GivenUp :
    (p : Pjlib) (id : ℤ) (m : ℕ) (stat : Result StreamStat) (w : World)
    → Silent p id m stat w
    → w.video_stall_ticks ≡ 0
    → let one = video_watchdog_cb p w in
      (0 < w.video_tx_packets_seen → GivenUp p id m stat one)
      × (w.video_tx_packets_seen ≡ 0
          → (one.video_failed_call_id ≡ w.video_failed_call_id)
            × GivenUp p id m stat (video_watchdog_cb p one))
unfolding Window
video_watchdog_cb-GivenUp p id m stat w silent fresh =
    let one = video_watchdog_cb p w in
    let first = video_watchdog_cb-Window p id m stat w silent (ground arith) in
    (
      (λ sent. first.0 (ground arith)),
      (λ never.
          let (failed, ticks, seen, armed) = first.1 (ground arith) in
          (
            failed,
            (video_watchdog_cb-Window p id m stat one
                  (Silent-after p id m stat w one silent failed seen armed)
                  (ground (arith, ticks, seen))).0
                (ground (arith, ticks, seen)),
          )),
    )
