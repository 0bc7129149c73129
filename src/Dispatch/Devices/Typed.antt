-- ===== src/Dispatch/Devices/Typed.antt =====
-- The results of device.*.
use pjsocky.Device.{max_devices, list_audio, list_video, set_audio, set_video_capture}
use pjsocky.Dispatch.Devices.{
  vid_dir_str, audio_items, video_items, audio_listed, video_listed, cmd_device_list_audio,
  cmd_device_list_video, set_audio_with, cmd_device_set_audio, set_video_with, cmd_device_set_video,
}
use pjsocky.Dispatch.Line.{device_list_audio, device_list_video}
use pjsocky.Json.{
  Value, null, bool, number, string, array, object, Items, nil, cons, Members, add_item, add_member,
  add_string, add_number,
}
use pjsocky.Pjlib.{
  Pjlib, AudioDevice, VideoDevice, Dir, no_dir, encoding, decoding, encoding_decoding, other_dir,
}
use pjsocky.Protocol.{
  Fields, nothing, fits, word, all_fit, has_fields, result_fields, audio_device_fields,
  video_device_fields, directions,
}
use pjsocky.Protocol.Typed.{Typed, no_result-Typed}
use pjsocky.World.{World}
use pjsocky.Prelude.{
  ◌≡◌, refl, Bool, true, false, ◌&&◌, Option, none, some, List, [], ◌∷◌, ℤ, Result, ok, err,
}

vid_dir_str-word : (d : Dir) → fits (word directions) (string (vid_dir_str d)) ≡ true
unfolding vid_dir_str
vid_dir_str-word no_dir = refl
vid_dir_str-word encoding = refl
vid_dir_str-word decoding = refl
vid_dir_str-word encoding_decoding = refl
vid_dir_str-word other_dir = refl

and_true : (a b : Bool) → (a && b) ≡ true → (a ≡ true) × (b ≡ true)
and_true true b h = (refl, h)
and_true false b h = absurd (cc)

-- An item is added at the end.
all_fit-add_item :
    (fs : Fields) (vs : Items) (ms : Members)
    → all_fit fs vs ≡ true
    → has_fields fs ms ≡ true
    → all_fit fs (add_item vs (object ms)) ≡ true
unfolding add_item
all_fit-add_item fs nil ms h g = rw g
all_fit-add_item fs (cons (object ns) vs) ms h g =
    let (first, rest) = and_true (has_fields fs ns) (all_fit fs vs) h in
    rw (first, all_fit-add_item fs vs ms rest g)
all_fit-add_item fs (cons null vs) ms h g = absurd (cc)
all_fit-add_item fs (cons (bool b) vs) ms h g = absurd (cc)
all_fit-add_item fs (cons (number x) vs) ms h g = absurd (cc)
all_fit-add_item fs (cons (string s) vs) ms h g = absurd (cc)
all_fit-add_item fs (cons (array ws) vs) ms h g = absurd (cc)

audio_items-fit :
    (ds : List AudioDevice) (vs : Items)
    → all_fit audio_device_fields vs ≡ true
    → all_fit audio_device_fields (audio_items ds vs) ≡ true
unfolding audio_items add_number add_string add_member
audio_items-fit [] vs h = h
audio_items-fit (d ∷ ds) vs h =
    audio_items-fit ds _ (all_fit-add_item audio_device_fields vs _ h refl)

video_items-fit :
    (ds : List VideoDevice) (vs : Items)
    → all_fit video_device_fields vs ≡ true
    → all_fit video_device_fields (video_items ds vs) ≡ true
unfolding video_items add_number add_string add_member
video_items-fit [] vs h = h
video_items-fit (d ∷ ds) vs h =
    video_items-fit ds _ (all_fit-add_item video_device_fields vs _ h (rw (vid_dir_str-word d.dir)))

module _ (p : Pjlib) where
  audio_listed-Typed :
      (r : Result (List AudioDevice)) → Typed (result_fields device_list_audio) (audio_listed p r)
  unfolding audio_listed add_member
  audio_listed-Typed (err e) = tt
  audio_listed-Typed (ok ds) = rw (audio_items-fit ds nil refl)

  video_listed-Typed :
      (r : Result (List VideoDevice)) → Typed (result_fields device_list_video) (video_listed p r)
  unfolding video_listed add_member
  video_listed-Typed (err e) = tt
  video_listed-Typed (ok ds) = rw (video_items-fit ds nil refl)

  pub cmd_device_list_audio-Typed :
      (params : Option Value) (w : World)
      → Typed (result_fields device_list_audio) (cmd_device_list_audio p params w).0
  unfolding cmd_device_list_audio
  cmd_device_list_audio-Typed params w = audio_listed-Typed (list_audio p max_devices w).0

  pub cmd_device_list_video-Typed :
      (params : Option Value) (w : World)
      → Typed (result_fields device_list_video) (cmd_device_list_video p params w).0
  unfolding cmd_device_list_video
  cmd_device_list_video-Typed params w = video_listed-Typed (list_video p max_devices w).0

  set_audio_with-Typed :
      (c b : Option ℤ) (w : World) → Typed (nothing ∷ []) (set_audio_with p c b w).0
  unfolding set_audio_with
  set_audio_with-Typed (some c) (some b) w = no_result-Typed (set_audio p c b) w
  set_audio_with-Typed none b w = tt
  set_audio_with-Typed (some c) none w = tt

  set_video_with-Typed : (c : Option ℤ) (w : World) → Typed (nothing ∷ []) (set_video_with p c w).0
  unfolding set_video_with
  set_video_with-Typed none w = tt
  set_video_with-Typed (some c) w = no_result-Typed (set_video_capture p c) w

  pub cmd_device_set_audio-Typed :
      (params : Option Value) (w : World) → Typed (nothing ∷ []) (cmd_device_set_audio p params w).0
  unfolding cmd_device_set_audio
  cmd_device_set_audio-Typed params w = set_audio_with-Typed _ _ w

  pub cmd_device_set_video-Typed :
      (params : Option Value) (w : World) → Typed (nothing ∷ []) (cmd_device_set_video p params w).0
  unfolding cmd_device_set_video
  cmd_device_set_video-Typed params w = set_video_with-Typed _ w
