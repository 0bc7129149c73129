-- ===== src/Dispatch/Devices/Said.antt =====
-- The device.* commands say nothing on their own.
use pjsocky.Device.Said.{set_audio-Silent, set_video_capture-Silent}
use pjsocky.Device.{list_audio, list_video}
use pjsocky.Dispatch.Devices.{
  cmd_device_list_audio, cmd_device_list_video, set_audio_with, cmd_device_set_audio,
  set_video_with, cmd_device_set_video,
}
use pjsocky.Protocol.Said.{Silent}
use pjsocky.Json.{Value}
use pjsocky.Pjlib.{Pjlib}
use pjsocky.World.{World}
use pjsocky.Prelude.{refl, Option, none, some, ℤ}

module _ (p : Pjlib) where
  set_audio_with-Silent : (c b : Option ℤ) (w : World) → Silent w (set_audio_with p c b w).1
  unfolding set_audio_with
  set_audio_with-Silent (some c) (some b) w = set_audio-Silent p c b w
  set_audio_with-Silent none b w = refl
  set_audio_with-Silent (some c) none w = refl

  set_video_with-Silent : (c : Option ℤ) (w : World) → Silent w (set_video_with p c w).1
  unfolding set_video_with
  set_video_with-Silent none w = refl
  set_video_with-Silent (some c) w = set_video_capture-Silent p c w

  pub cmd_device_list_audio-Silent :
      (params : Option Value) (w : World) → Silent w (cmd_device_list_audio p params w).1
  unfolding cmd_device_list_audio list_audio
  cmd_device_list_audio-Silent params w = refl

  pub cmd_device_list_video-Silent :
      (params : Option Value) (w : World) → Silent w (cmd_device_list_video p params w).1
  unfolding cmd_device_list_video list_video
  cmd_device_list_video-Silent params w = refl

  pub cmd_device_set_audio-Silent :
      (params : Option Value) (w : World) → Silent w (cmd_device_set_audio p params w).1
  unfolding cmd_device_set_audio
  cmd_device_set_audio-Silent params w = set_audio_with-Silent _ _ w

  pub cmd_device_set_video-Silent :
      (params : Option Value) (w : World) → Silent w (cmd_device_set_video p params w).1
  unfolding cmd_device_set_video
  cmd_device_set_video-Silent params w = set_video_with-Silent _ w
