-- ===== src/Call.antt =====
-- src/call.c: the current call, its timers and its media. A timer entry's user_data is the call it
-- was armed for. The log lines are left out, except those that are a function's purpose, the periodic
-- media report and what was negotiated: these are requests to the environment.
pub mod Frame
pub mod Said
pub mod Bounds
pub mod Info
pub mod Commands
pub mod Video
pub mod Report
pub mod Negotiated
pub mod Callbacks
mod Tests
use pjsocky.Pjlib.{
  Pjlib, Request, TimerName, ring_timer, video_watchdog, media_report, Delay, cancel_timer,
  schedule_timer, call_get_max_count,
}
use pjsocky.World.{World, Timer, M, ask}
use pjsocky.Prelude.{Bool, true, false, ◌∷◌, if◌then◌else◌, ℤ, is_negative, ltb_ℤ, pos, is_success}

-- The entry of each timer, with its "scheduled" flag.
abbrev pub timer : TimerName → World → Timer
timer ring_timer w = w.ring
timer video_watchdog w = w.watchdog
timer media_report w = w.report

abbrev pub with_timer : TimerName → Timer → World → World
with_timer ring_timer t w = record w { ring = t }
with_timer video_watchdog t w = record w { watchdog = t }
with_timer media_report t w = record w { report = t }

-- cancel_ring_timer, cancel_video_watchdog and cancel_media_report are one function of three entries.
unfoldable pub cancel : TimerName → World → World
cancel name w =
    if (timer name w).scheduled
    then record (with_timer name
        (record { scheduled = false; user_data = (timer name w).user_data }) w) {
          history = cancel_timer name ∷ w.history;
        }
    else w

-- The flag that a timer's callback clears first.
abbrev pub fired : TimerName → World → World
fired name w =
    with_timer name (record { scheduled = false; user_data = (timer name w).user_data }) w

module _ (p : Pjlib) where
  -- pjsua_schedule_timer() on an entry, and the flag if it succeeds.
  unfoldable pub schedule : TimerName → Delay → World → World
  schedule name delay w =
      let id = (timer name w).user_data in
      let h = schedule_timer name id delay ∷ w.history in
      let v = record w { history = h } in
      if is_success (p.schedule_timer h)
      then with_timer name (record { scheduled = true; user_data = id }) v
      else v

  -- pj_timer_entry_init() with the call, then pjsua_schedule_timer().
  unfoldable pub arm : TimerName → ℤ → Delay → World → World
  unfolding schedule
  arm name call_id delay w =
      schedule name delay
        (with_timer name (record { scheduled = (timer name w).scheduled; user_data = call_id }) w)

  unfoldable pub is_valid_call_id : ℤ → M Bool
  is_valid_call_id id w =
      if is_negative id
      then (false, w)
      else let r = ask call_get_max_count p.call_get_max_count w in (ltb_ℤ id (pos r.0), r.1)
