-- ===== src/Call/Said.antt =====
-- Setting and cancelling a timer says nothing.
use pjsocky.Call.{cancel, schedule, arm}
use pjsocky.Pjlib.{Pjlib, TimerName, ring_timer, video_watchdog, media_report, Delay}
use pjsocky.Protocol.Said.{Silent}
use pjsocky.World.{World}
use pjsocky.Prelude.{arith, ℤ}

pub cancel-Silent : (name : TimerName) (w : World) → Silent w (cancel name w)
unfolding cancel
cancel-Silent ring_timer w = ground arith
cancel-Silent video_watchdog w = ground arith
cancel-Silent media_report w = ground arith

pub schedule-Silent :
    (p : Pjlib) (name : TimerName) (delay : Delay) (w : World) → Silent w (schedule p name delay w)
unfolding schedule
schedule-Silent p ring_timer delay w = ground arith
schedule-Silent p video_watchdog delay w = ground arith
schedule-Silent p media_report delay w = ground arith

pub arm-Silent :
    (p : Pjlib) (name : TimerName) (id : ℤ) (delay : Delay) (w : World)
    → Silent w (arm p name id delay w)
unfolding arm schedule
arm-Silent p ring_timer id delay w = ground arith
arm-Silent p video_watchdog id delay w = ground arith
arm-Silent p media_report id delay w = ground arith
