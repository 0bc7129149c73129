-- ===== src/Call/Report.antt =====
-- src/call.c: the periodic media report of an established call.
use pjsocky.Call.{cancel, fired, schedule, arm}
use pjsocky.Call.Info.{is_confirmed, query, get_rtp_counters}
use pjsocky.Pjlib.{Pjlib, CallInfo, audio, video, media_report, Delay, StreamStat, media_log}
use pjsocky.World.{World, tell}
use pjsocky.Prelude.{ℕ, ◌/◌, ◌%◌, Option, none, some, if◌then◌else◌, ℤ, Result, ok, err}

-- PJSOCKY_MEDIA_REPORT_MSEC
abbrev pub report_msec : ℕ
report_msec = 5000

abbrev pub report_delay : Delay
report_delay = record { sec = report_msec / 1000; msec = report_msec % 1000 }

-- A type that the call does not have is reported as absent, not as zeroes.
abbrev pub present : Result StreamStat → Option StreamStat
present (err e) = none
present (ok stat) = some stat

module _ (p : Pjlib) where
  unfoldable pub report_call : ℤ → Result CallInfo → World → World
  report_call id (err e) w = w
  report_call id (ok info) w =
      if is_confirmed info.state
      then (let a = get_rtp_counters p id audio w in
          let v = get_rtp_counters p id video a.1 in
          schedule p media_report report_delay
            (tell (media_log id (present a.0) (present v.0)) v.1).1)
      else w

  unfoldable pub media_report_cb : World → World
  unfolding report_call
  media_report_cb w =
      let id = w.report.user_data in
      let r = query p id (fired media_report w) in report_call id r.0 r.1

  unfoldable pub arm_media_report : ℤ → World → World
  arm_media_report id w = arm p media_report id report_delay (cancel media_report w)
