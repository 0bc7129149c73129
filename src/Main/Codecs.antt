-- ===== src/Main/Codecs.antt =====
-- apply_video_format_override of src/main.c: the size and the frame rate of the environment are set in
-- every video codec. The log lines are left out.
pub mod Override
use pjsocky.Platform.{
  Platform, Trace, CodecParam, ask, vid_enum_codecs, vid_codec_get_param, vid_codec_set_param,
}
use pjsocky.VideoFormat.{parse_size, parse_fps}
use pjsocky.Prelude.{
  String, ℕ, ◌&&◌, Option, none, some, List, [], ◌∷◌, ◌==◌, if◌then◌else◌, Result, ok, err,
}

-- `width`, `height` and `fps` of the function; zero where nothing is to be set.
pub record Wanted : Type 0 where
  pub width : ℕ
  pub height : ℕ
  pub fps : ℕ

unfoldable pub size_of : (ulong_max : ℕ) → Option (List ℕ) → ℕ × ℕ
size_of ulong_max none = (0, 0)
size_of ulong_max (some size_str) = parse_size ulong_max size_str

unfoldable pub fps_of : (ulong_max : ℕ) → Option (List ℕ) → ℕ
fps_of ulong_max none = 0
fps_of ulong_max (some fps_str) = parse_fps ulong_max fps_str

unfoldable pub set_format : Wanted → CodecParam → CodecParam
set_format wanted param =
    let sized =
      if wanted.width == 0
      then param
      else record param { width = wanted.width; height = wanted.height } in
    if wanted.fps == 0 then sized else record sized { fps_num = wanted.fps; fps_denum = 1 }

module _ (p : Platform) where
  unfoldable pub wanted_format : Wanted
  unfolding size_of fps_of
  wanted_format =
      let size = size_of p.ulong_max (p.getenv "PJSOCKY_VIDEO_SIZE") in
      record {
        width = size.0;
        height = size.1;
        fps = fps_of p.ulong_max (p.getenv "PJSOCKY_VIDEO_FPS");
      }

  -- One codec, from its parameter on. What pjsua_vid_codec_set_param() answers is only logged.
  unfoldable pub override_codec : Wanted → String → Result CodecParam × Trace → Trace
  override_codec wanted codec (err e, h) = h
  override_codec wanted codec (ok param, h) =
      vid_codec_set_param codec (set_format wanted param) ∷ h

  unfoldable pub override_codecs : Wanted → List String → Trace → Trace
  override_codecs wanted [] h = h
  override_codecs wanted (codec ∷ codecs) h =
      override_codecs wanted codecs
        (override_codec wanted codec (ask (vid_codec_get_param codec) p.vid_codec_get_param h))

  unfoldable pub enumerated : Wanted → Result (List String) × Trace → Trace
  unfolding override_codecs
  enumerated wanted (err e, h) = h
  enumerated wanted (ok codecs, h) = override_codecs wanted codecs h

  unfoldable pub override_with : Wanted → Trace → Trace
  unfolding enumerated
  override_with wanted h =
      if wanted.width == 0 && wanted.fps == 0
      then h
      else enumerated wanted (ask (vid_enum_codecs p.max_codecs) p.vid_enum_codecs h)

  unfoldable pub apply_video_format_override : Trace → Trace
  unfolding override_with
  apply_video_format_override h = override_with wanted_format h
