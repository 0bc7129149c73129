-- ===== src/Dispatch/Devices.antt =====
-- src/proto/dispatch.c: the device.* commands.
pub mod Keeps
pub mod Said
pub mod Typed
use pjsocky.Dispatch.Handler.{Handler, no_result, invalid_params}
use pjsocky.Device.{max_devices, list_audio, list_video, set_audio, set_video_capture}
use pjsocky.Dispatch.Params.{get_int_member}
use pjsocky.Json.{
  Items, nil, array, object, Members, end, add_item, add_member, add_string, add_number,
}
use pjsocky.Number.Defs.{of_int, of_unsigned}
use pjsocky.Pjlib.{Pjlib, AudioDevice, VideoDevice, Dir, encoding, decoding, encoding_decoding}
use pjsocky.World.{M}
use pjsocky.Prelude.{String, Option, none, some, List, [], ◌∷◌, ℤ, Result, ok, err}

unfoldable pub vid_dir_str : Dir → String
vid_dir_str encoding = "capture"
vid_dir_str decoding = "render"
vid_dir_str encoding_decoding = "capture_render"
vid_dir_str _ = "none"

unfoldable pub audio_items : List AudioDevice → Items → Items
audio_items [] vs = vs
audio_items (d ∷ ds) vs = audio_items ds (
    add_item vs (
      object (
        add_number
          (add_number (add_string (add_number end "id" (of_int d.id)) "name" d.name)
            "input_channels" (of_unsigned d.input_count))
          "output_channels" (of_unsigned d.output_count))))

unfoldable pub video_items : List VideoDevice → Items → Items
video_items [] vs = vs
video_items (d ∷ ds) vs = video_items ds (
    add_item vs (
      object (
        add_string
          (add_string (add_string (add_number end "id" (of_int d.id)) "name" d.name) "driver"
            d.driver)
          "dir" (vid_dir_str d.dir))))

module _ (p : Pjlib) where
  audio_listed : Result (List AudioDevice) → Result Members
  audio_listed (err e) = err e
  audio_listed (ok ds) = ok (add_member end "devices" (array (audio_items ds nil)))

  unfoldable pub cmd_device_list_audio : Handler
  unfolding audio_listed
  cmd_device_list_audio params w = let r = list_audio p max_devices w in (audio_listed r.0, r.1)

  video_listed : Result (List VideoDevice) → Result Members
  video_listed (err e) = err e
  video_listed (ok ds) = ok (add_member end "devices" (array (video_items ds nil)))

  unfoldable pub cmd_device_list_video : Handler
  unfolding video_listed
  cmd_device_list_video params w = let r = list_video p max_devices w in (video_listed r.0, r.1)

  set_audio_with : Option ℤ → Option ℤ → M (Result Members)
  set_audio_with (some capture_id) (some playback_id) =
      no_result (set_audio p capture_id playback_id)
  set_audio_with _ _ = invalid_params

  unfoldable pub cmd_device_set_audio : Handler
  unfolding set_audio_with
  cmd_device_set_audio params =
      set_audio_with (get_int_member p params "capture_id") (get_int_member p params "playback_id")

  set_video_with : Option ℤ → M (Result Members)
  set_video_with none = invalid_params
  set_video_with (some capture_id) = no_result (set_video_capture p capture_id)

  unfoldable pub cmd_device_set_video : Handler
  unfolding set_video_with
  cmd_device_set_video params = set_video_with (get_int_member p params "capture_id")
