-- ===== src/Call/Frame.antt =====
-- The part of the state that the callbacks of calls leave alone.
use pjsocky.Call.{cancel, schedule, arm}
use pjsocky.Pjlib.{Pjlib, TimerName, ring_timer, video_watchdog, media_report, Delay}
use pjsocky.World.{World}
use pjsocky.Prelude.{◌≡◌, sym, ap, ◌∙◌, arith, ℤ}

-- What happens to a call changes the call's id, the timers and the video's record: neither the account,
-- the camera and the ring timeout that is set, nor the connection.
abbrev pub CallFrame : World → World → Type 0
CallFrame w v = v ≡ record w {
  history = v.history;
  call_id = v.call_id;
  ring = v.ring;
  video_failed_call_id = v.video_failed_call_id;
  watchdog = v.watchdog;
  video_tx_packets_seen = v.video_tx_packets_seen;
  video_stall_ticks = v.video_stall_ticks;
  report = v.report;
}

pub CallFrame-trans : (u v w : World) → CallFrame u v → CallFrame v w → CallFrame u w
CallFrame-trans u v w a b =
    b
    ∙ ap {B = World}
        (λ x. record x {
          history = w.history;
          call_id = w.call_id;
          ring = w.ring;
          video_failed_call_id = w.video_failed_call_id;
          watchdog = w.watchdog;
          video_tx_packets_seen = w.video_tx_packets_seen;
          video_stall_ticks = w.video_stall_ticks;
          report = w.report;
        })
        a

pub SameState-CallFrame : (w v : World) → v ≡ record w { history = v.history } → CallFrame w v
SameState-CallFrame w v e =
    e
    ∙ sym (
        ap {B = World}
          (λ x. record w {
            history = v.history;
            call_id = x.call_id;
            ring = x.ring;
            video_failed_call_id = x.video_failed_call_id;
            watchdog = x.watchdog;
            video_tx_packets_seen = x.video_tx_packets_seen;
            video_stall_ticks = x.video_stall_ticks;
            report = x.report;
          })
          e)

pub cancel-CallFrame : (name : TimerName) (w : World) → CallFrame w (cancel name w)
unfolding cancel
cancel-CallFrame ring_timer w = ground arith
cancel-CallFrame video_watchdog w = ground arith
cancel-CallFrame media_report w = ground arith

pub schedule-CallFrame :
    (p : Pjlib) (name : TimerName) (delay : Delay) (w : World)
    → CallFrame w (schedule p name delay w)
unfolding schedule
schedule-CallFrame p ring_timer delay w = ground arith
schedule-CallFrame p video_watchdog delay w = ground arith
schedule-CallFrame p media_report delay w = ground arith

pub arm-CallFrame :
    (p : Pjlib) (name : TimerName) (id : ℤ) (delay : Delay) (w : World)
    → CallFrame w (arm p name id delay w)
unfolding arm schedule
arm-CallFrame p ring_timer id delay w = ground arith
arm-CallFrame p video_watchdog id delay w = ground arith
arm-CallFrame p media_report id delay w = ground arith
