-- ===== src/Dispatch/Devices/Keeps.antt =====
-- What the device.* commands leave alone.
use pjsocky.Device.{list_audio, list_video, set_video_capture}
use pjsocky.Device.Select.{Selects, set_video_capture-Selects, set_audio-SameState}
use pjsocky.Dispatch.Devices.{
  cmd_device_list_audio, cmd_device_list_video, set_audio_with, cmd_device_set_audio,
  set_video_with, cmd_device_set_video,
}
use pjsocky.Dispatch.Frame.{Frame, SameState-Frame}
use pjsocky.Json.{Value}
use pjsocky.Pjlib.{Pjlib, vid_dev_get_info}
use pjsocky.World.{World}
use pjsocky.Prelude.{refl, sym, ap, ◌∙◌, Option, none, some, ◌∷◌, ℤ}

module _ (p : Pjlib) where
  set_audio_with-Frame : (c b : Option ℤ) (w : World) → Frame w (set_audio_with p c b w).1
  unfolding set_audio_with
  set_audio_with-Frame (some c) (some b) w = SameState-Frame w _ (set_audio-SameState p c b w)
  set_audio_with-Frame none b w = refl
  set_audio_with-Frame (some c) none w = refl

  set_video_with-Frame : (c : Option ℤ) (w : World) → Frame w (set_video_with p c w).1
  unfolding set_video_with Selects
  set_video_with-Frame none w = refl
  set_video_with-Frame (some c) w =
      let h = vid_dev_get_info c ∷ w.history in
      let e = (set_video_capture-Selects p c w).0.1 in
      e
      ∙ sym (
          ap {B = World}
            (λ x. record w {
              history = (set_video_capture p c w).1.history;
              acc_id = x.acc_id;
              registered = x.registered;
              video_capture_id = x.video_capture_id;
              call_id = x.call_id;
              ring_timeout_sec = x.ring_timeout_sec;
            })
            e)

  pub cmd_device_list_audio-Frame :
      (params : Option Value) (w : World) → Frame w (cmd_device_list_audio p params w).1
  unfolding cmd_device_list_audio list_audio
  cmd_device_list_audio-Frame params w = refl

  pub cmd_device_list_video-Frame :
      (params : Option Value) (w : World) → Frame w (cmd_device_list_video p params w).1
  unfolding cmd_device_list_video list_video
  cmd_device_list_video-Frame params w = refl

  pub cmd_device_set_audio-Frame :
      (params : Option Value) (w : World) → Frame w (cmd_device_set_audio p params w).1
  unfolding cmd_device_set_audio
  cmd_device_set_audio-Frame params w = set_audio_with-Frame _ _ w

  pub cmd_device_set_video-Frame :
      (params : Option Value) (w : World) → Frame w (cmd_device_set_video p params w).1
  unfolding cmd_device_set_video
  cmd_device_set_video-Frame params w = set_video_with-Frame _ w
