-- ===== src/Call/Callbacks/Watched.antt =====
-- The watchdog's invariant over the callbacks of pjsua-lib and of its timer heap.
use pjsocky.Call.{cancel, arm, schedule}
use pjsocky.Call.Callbacks.{
  stop_ringing, forget, call_state_known, on_call_state, media_state_known, on_call_media_state,
  on_call_media_event, ring_timer_cb, reject_ringing, start_ringing, incoming_known,
  on_incoming_call,
}
use pjsocky.Call.Info.{is_confirmed, get_rtp_counters, get_rtp_counters-SameState}
use pjsocky.Call.Negotiated.Lines.{log_negotiated_media-Logs}
use pjsocky.Call.Report.{report_delay, report_call, media_report_cb, arm_media_report}
use pjsocky.Call.Video.{video_watchdog_cb}
use pjsocky.Call.Video.Armed.{
  WatchdogOk, give_up-WatchdogOk, video_watchdog_cb-WatchdogOk, arm_video_watchdog-WatchdogOk,
}
use pjsocky.Events.{push}
use pjsocky.Events.Push.{push-SameState}
use pjsocky.Json.{Members}
use pjsocky.Pjlib.{Pjlib, CallInfo, StreamStat, audio, video, media_report, media_log}
use pjsocky.World.{World}
use pjsocky.Prelude.{
  String, ℕ, ◌≡◌, sym, subst, inl, inr, Bool, true, false, Option, ◌∷◌, arith, Bool-cases, ℤ,
  Result, ok, err,
}

-- What may happen to the calls, one step each: a callback of pjsua-lib, or a timer that fires, which
-- is one that is scheduled.
pub data Step (p : Pjlib) : World → World → Type 0 where
  call_state : (id : ℤ) (w : World) → Step p w (on_call_state p id w)
  call_media_state : (id : ℤ) (w : World) → Step p w (on_call_media_state p id w)
  call_media_event :
      (id : ℤ) (m : ℕ) (is_device_error : Bool) (w : World)
      → Step p w (on_call_media_event p id m is_device_error w)
  incoming_call : (id : ℤ) (w : World) → Step p w (on_incoming_call p id w)
  ring_timeout : (w : World) → w.ring.scheduled ≡ true → Step p w (ring_timer_cb p w)
  watchdog_window : (w : World) → w.watchdog.scheduled ≡ true → Step p w (video_watchdog_cb p w)
  report_due : (w : World) → w.report.scheduled ≡ true → Step p w (media_report_cb p w)

data Reaches (p : Pjlib) (w : World) : World → Type 0 where
  here : Reaches p w w
  then_step : {u v : World} → Reaches p w u → Step p u v → Reaches p w v

push-WatchdogOk :
    (p : Pjlib) (name : String) (members : Members) (w : World)
    → WatchdogOk w
    → WatchdogOk (push p name members w).1
push-WatchdogOk p name members w before =
    subst WatchdogOk (sym (push-SameState p name members w)) before

forget-WatchdogOk :
    (p : Pjlib) (id : ℤ) (info : CallInfo) (w : World)
    → WatchdogOk w
    → WatchdogOk (forget p id info w)
unfolding forget cancel
forget-WatchdogOk p id info w before = ground arith

stop_ringing-WatchdogOk :
    (p : Pjlib) (id : ℤ) (info : CallInfo) (w : World)
    → WatchdogOk w
    → WatchdogOk (stop_ringing p id info w)
unfolding stop_ringing cancel
stop_ringing-WatchdogOk p id info w before = ground arith

call_state_known-WatchdogOk :
    (p : Pjlib) (id : ℤ) (r : Result CallInfo) (w : World)
    → WatchdogOk w
    → WatchdogOk (call_state_known p id r w)
unfolding call_state_known
call_state_known-WatchdogOk p id (err e) w before = before
call_state_known-WatchdogOk p id (ok info) w before =
    push-WatchdogOk p _ _ _
      (forget-WatchdogOk p id info _ (stop_ringing-WatchdogOk p id info w before))

arm_media_report-WatchdogOk :
    (p : Pjlib) (id : ℤ) (w : World) → WatchdogOk w → WatchdogOk (arm_media_report p id w)
unfolding arm_media_report cancel arm schedule
arm_media_report-WatchdogOk p id w before = ground arith

media_state_known-WatchdogOk :
    (p : Pjlib) (id : ℤ) (r : Result CallInfo) (w : World)
    → WatchdogOk w
    → WatchdogOk (media_state_known p id r w)
unfolding media_state_known
media_state_known-WatchdogOk p id (err e) w before = before
media_state_known-WatchdogOk p id (ok info) w before = push-WatchdogOk p _ _ _ (
    subst WatchdogOk (sym (log_negotiated_media-Logs p id info _).0)
      (arm_media_report-WatchdogOk p id _ (arm_video_watchdog-WatchdogOk p id info _)))

start_ringing-WatchdogOk :
    (p : Pjlib) (id : ℤ) (w : World) → WatchdogOk w → WatchdogOk (start_ringing p id w)
unfolding start_ringing cancel arm schedule
start_ringing-WatchdogOk p id w before = ground arith

incoming_known-WatchdogOk :
    (p : Pjlib) (id : ℤ) (r : Result CallInfo) (w : World)
    → WatchdogOk w
    → WatchdogOk (incoming_known p id r w)
unfolding incoming_known
incoming_known-WatchdogOk p id (err e) w before = before
incoming_known-WatchdogOk p id (ok info) w before =
    push-WatchdogOk p _ _ _ (start_ringing-WatchdogOk p id w before)

reject_ringing-WatchdogOk :
    (p : Pjlib) (id : ℤ) (r : Result CallInfo) (w : World)
    → WatchdogOk w
    → WatchdogOk (reject_ringing p id r w)
unfolding reject_ringing
reject_ringing-WatchdogOk p id (err e) w before = before
reject_ringing-WatchdogOk p id (ok info) w before = ground arith

reported-WatchdogOk :
    (p : Pjlib) (id : ℤ) (a v : Option StreamStat) (w : World)
    → WatchdogOk w
    → WatchdogOk
        (schedule p media_report report_delay (record w { history = media_log id a v ∷ w.history }))
unfolding schedule
reported-WatchdogOk p id a v w before = ground arith

counted-WatchdogOk :
    (p : Pjlib) (id : ℤ) (w : World)
    → WatchdogOk w
    → WatchdogOk (get_rtp_counters p id video (get_rtp_counters p id audio w).1).1
counted-WatchdogOk p id w before =
    let v = (get_rtp_counters p id audio w).1 in
    subst WatchdogOk (sym (get_rtp_counters-SameState p id video v))
      (subst WatchdogOk (sym (get_rtp_counters-SameState p id audio w)) before)

report_call-WatchdogOk :
    (p : Pjlib) (id : ℤ) (r : Result CallInfo) (w : World)
    → WatchdogOk w
    → WatchdogOk (report_call p id r w)
unfolding report_call
report_call-WatchdogOk p id (err e) w before = before
report_call-WatchdogOk p id (ok info) w before = elim (Bool-cases (is_confirmed info.state)) [
  | inl e ↦ rw e (reported-WatchdogOk p id _ _ _ (counted-WatchdogOk p id w before))
  | inr e ↦ rw e before
]

pub Step-WatchdogOk : (p : Pjlib) {w v : World} → Step p w v → WatchdogOk w → WatchdogOk v
unfolding on_call_state on_call_media_state on_call_media_event on_incoming_call ring_timer_cb
    media_report_cb
Step-WatchdogOk p (call_state id w) before = call_state_known-WatchdogOk p id _ _ before
Step-WatchdogOk p (call_media_state id w) before = media_state_known-WatchdogOk p id _ _ before
Step-WatchdogOk p (call_media_event id m true w) before = give_up-WatchdogOk p id m w before
Step-WatchdogOk p (call_media_event id m false w) before = before
Step-WatchdogOk p (incoming_call id w) before = incoming_known-WatchdogOk p id _ _ before
Step-WatchdogOk p (ring_timeout w on) before = reject_ringing-WatchdogOk p _ _ _ before
Step-WatchdogOk p (watchdog_window w on) before = video_watchdog_cb-WatchdogOk p w on before
Step-WatchdogOk p (report_due w on) before = report_call-WatchdogOk p _ _ _ before

-- In every state that callbacks and timers lead to from a good one, in whatever order: if the watchdog
-- is scheduled, it is for a call whose video has not been given up, and with a window left
-- before it gives up.
Reaches-WatchdogOk : (p : Pjlib) (w v : World) → Reaches p w v → WatchdogOk w → WatchdogOk v
Reaches-WatchdogOk p w _ here before = before
Reaches-WatchdogOk p w v (then_step r s) before =
    Step-WatchdogOk p s (Reaches-WatchdogOk p w _ r before)
