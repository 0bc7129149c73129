-- ===== src/Device/Tests.antt =====
-- Runs of the device selection.
use pjsocky.Device.{set_audio, set_video_capture}
use pjsocky.Device.Select.{
  ClosesIdle, Selects, captures, set_audio-ClosesIdle, set_video_capture-Selects,
}
use pjsocky.Pjlib.{set_snd_dev, latest, vid_dev_get_info}
use pjsocky.Sample.{sample, sample_world, sample_camera}
use pjsocky.World.{start}
use pjsocky.Prelude.{◌≡◌, refl, true, false, some, [], ◌∷◌, pos, ok}

start-ClosesIdle : ClosesIdle sample []
unfolding ClosesIdle
start-ClosesIdle = refl

set_audio-ClosesIdle_example :
    let r = set_audio sample (pos 1) (pos 2) sample_world in
    ClosesIdle sample r.1.history
    × (latest r.1.history
        ≡ some (
            set_snd_dev
              (record { capture_dev = pos 1; playback_dev = pos 2; no_immediate_open = true })))
    × (r.0 ≡ sample.set_snd_dev r.1.history)
    × (r.1 ≡ record sample_world { history = r.1.history })
unfolding start
set_audio-ClosesIdle_example =
    set_audio-ClosesIdle sample (pos 1) (pos 2) sample_world start-ClosesIdle

set_video_capture-Selects_example :
    let r = set_video_capture sample (pos 3) sample_world in
    Selects sample (pos 3) (ok sample_camera) sample_world r
    × (captures (ok sample_camera) ≡ false → r.1.history ≡ vid_dev_get_info (pos 3) ∷ [])
unfolding start
set_video_capture-Selects_example = set_video_capture-Selects sample (pos 3) sample_world

chosen : (set_video_capture sample (pos 3) sample_world).1.video_capture_id ≡ pos 3
unfolding set_video_capture
chosen = refl
