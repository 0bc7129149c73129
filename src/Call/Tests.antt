-- ===== src/Call/Tests.antt =====
-- Runs of the callbacks and the timers.
use pjsocky.Call.Bounds.{in_bounds, in_range, HasLimit, checked_bounds}
use pjsocky.Call.Callbacks.Keeps.{Step-CallFrame}
use pjsocky.Call.Commands.{hangup, answer}
use pjsocky.Call.Frame.{CallFrame}
use pjsocky.Call.Callbacks.{
  OfferLine, offered_video_count, on_call_rx_offer, on_call_state, on_incoming_call,
}
use pjsocky.Call.Callbacks.Ring.{offers_video, on_call_rx_offer_lem, Forgets, on_call_state-Forgets}
use pjsocky.Call.Callbacks.Watched.{incoming_call}
use pjsocky.Call.Negotiated.{log_negotiated_media}
use pjsocky.Call.Negotiated.Lines.{lines, describe_all, log_negotiated_media-Logs}
use pjsocky.World.Same.{SameState}
use pjsocky.Pjlib.{MediaLine, negotiated, StreamStat, CallSetting}
use pjsocky.Call.Info.{find_sending_video, active_index, get_info, get_rtp_counters}
use pjsocky.Call.{is_valid_call_id}
use pjsocky.Call.Video.{is_moving, video_watchdog_cb}
use pjsocky.Call.Video.Watchdog.{Silent, GivenUp, video_watchdog_cb-GivenUp}
use pjsocky.Sample.{sample, sample_world, sample_call}
use pjsocky.World.{World, start}
use pjsocky.Prelude.{
  ◌≤◌, ◌<◌, ◌≡◌, refl, true, false, ◌||◌, some, List, [], ◌∷◌, ◌++◌, ltb, pos, is_ok, failure,
  einval, ok,
}

-- A disabled video line in front of one that counts.
abbrev offer : List OfferLine
offer =
    record { is_video = false; port = 4000 }
    ∷ record { is_video = true; port = 0 }
    ∷ record { is_video = true; port = 4002 }
    ∷ []

abbrev no_video : CallSetting
no_video = record { vid_cnt = 0; txt_cnt = 1 }

one_counts : offered_video_count offer ≡ 1
unfolding offered_video_count
one_counts = refl

on_call_rx_offer_lem_example :
    let s = on_call_rx_offer (some offer) no_video in
    (s.txt_cnt ≡ 0)
    × (ltb 0 s.vid_cnt ≡ (false || offers_video offer))
    × (0 < 0 → s.vid_cnt ≡ 0)
    × (s.vid_cnt ≤ 1)
on_call_rx_offer_lem_example = on_call_rx_offer_lem offer no_video

on_call_state-Forgets_example :
    Forgets (pos 1) (ok sample_call) sample_world (on_call_state sample (pos 1) sample_world)
on_call_state-Forgets_example = on_call_state-Forgets sample (pos 1) sample_world refl

abbrev silence : StreamStat
silence = record { tx = 0; rx = 9 }

abbrev watched : World
watched = record sample_world { watchdog = record { scheduled = true; user_data = pos 1 } }

watched-Silent : Silent sample (pos 1) 1 (ok silence) watched
unfolding is_moving find_sending_video get_rtp_counters get_info is_valid_call_id active_index start
watched-Silent = record {
  armed = refl;
  sends = λ h. (sample_call, refl, refl, refl, λ v. refl);
  still = refl;
  other = refl;
}

video_watchdog_cb-GivenUp_example :
    let one = video_watchdog_cb sample watched in
    (0 < watched.video_tx_packets_seen → GivenUp sample (pos 1) 1 (ok silence) one)
    × (watched.video_tx_packets_seen ≡ 0
        → (one.video_failed_call_id ≡ watched.video_failed_call_id)
          × GivenUp sample (pos 1) 1 (ok silence) (video_watchdog_cb sample one))
unfolding start
video_watchdog_cb-GivenUp_example =
    video_watchdog_cb-GivenUp sample (pos 1) 1 (ok silence) watched watched-Silent refl

sample-HasLimit : HasLimit sample 4
sample-HasLimit h = refl

start-in_bounds : in_bounds 4 [] ≡ true
unfolding in_bounds
start-in_bounds = refl

-- Call 4 of four is out of range.
checked_bounds_example :
    let a = hangup sample (pos 4) 486 sample_world in
    let b = answer sample (pos 4) 486 true sample_world in
    let c = get_info sample (pos 4) sample_world in
    (in_bounds 4 a.1.history ≡ true)
    × (in_bounds 4 b.1.history ≡ true)
    × (in_bounds 4 c.1.history ≡ true)
    × (in_range 4 (pos 4) ≡ false
        → (a.0 ≡ failure einval) × (b.0 ≡ failure einval) × (is_ok c.0 ≡ false))
unfolding start
checked_bounds_example =
    checked_bounds sample 4 (pos 4) 486 true sample_world sample-HasLimit start-in_bounds

Step-CallFrame_example : CallFrame start (on_incoming_call sample (pos 1) start)
Step-CallFrame_example =
    Step-CallFrame sample start (on_incoming_call sample (pos 1) start)
      (incoming_call (pos 1) start)

log_negotiated_media-Logs_example :
    let v = log_negotiated_media sample (pos 1) sample_call sample_world in
    SameState sample_world v
    × (ls : List MediaLine) × (lines v.history
        ≡ lines sample_world.history ++ (ls ++ negotiated 2 1 1 ∷ []))
    × (describe_all 0 sample_call.media ls ≡ true)
log_negotiated_media-Logs_example =
    log_negotiated_media-Logs sample (pos 1) sample_call sample_world
