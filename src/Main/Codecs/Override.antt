-- ===== src/Main/Codecs/Override.antt =====
-- What apply_video_format_override sets.
use pjsocky.Main.Codecs.{
  Wanted, size_of, fps_of, set_format, wanted_format, override_codec, override_codecs, enumerated,
  apply_video_format_override,
}
use pjsocky.Platform.{
  Platform, Trace, CodecParam, vid_enum_codecs, vid_codec_get_param, vid_codec_set_param,
}
use pjsocky.VideoFormat.{max_dim, max_fps}
use pjsocky.VideoFormat.Parse.{parse_size_bounds, parse_fps_bounds}
use pjsocky.Prelude.{
  String, ℕ, ◌≤◌, ◌<◌, ◌≡◌, refl, sym, subst, ◌⊎◌, inl, inr, ◌&&◌, Option, none, some, List, [],
  ◌∷◌, arith, ◌==◌, if-elim, Result, ok, err,
}

abbrev IsSize : (w h : ℕ) → Type 0
IsSize w h = (0 < w) × (w ≤ max_dim) × (0 < h) × (h ≤ max_dim)

abbrev IsRate : ℕ → Type 0
IsRate fps = (0 < fps) × (fps ≤ max_fps)

-- A codec's size is left as it was read, or is one from 1x1 to 8192x8192; its frame rate is left, or is a
-- whole number from 1 to 240.
abbrev pub InRange : CodecParam → CodecParam → Type 0
InRange old new =
    ((new.width ≡ old.width) × (new.height ≡ old.height) ⊎ IsSize new.width new.height)
    × ((new.fps_num ≡ old.fps_num) × (new.fps_denum ≡ old.fps_denum)
        ⊎ IsRate new.fps_num × (new.fps_denum ≡ 1))

abbrev Taken : Wanted → Type 0
Taken w = ((w.width ≡ 0) × (w.height ≡ 0) ⊎ IsSize w.width w.height) × ((w.fps ≡ 0) ⊎ IsRate w.fps)

set_format-InRange : (w : Wanted) (old : CodecParam) → Taken w → InRange old (set_format w old)
unfolding set_format
set_format-InRange w old (inl size, inl rate) =
    (inl (ground arith, ground arith), inl (ground arith, ground arith))
set_format-InRange w old (inl size, inr rate) =
    (inl (ground arith, ground arith), inr ((ground arith, ground arith), ground arith))
set_format-InRange w old (inr size, inl rate) =
    (inr (ground arith, ground arith, ground arith, ground arith), inl (ground arith, ground arith))
set_format-InRange w old (inr size, inr rate) = (
  inr (ground arith, ground arith, ground arith, ground arith),
  inr ((ground arith, ground arith), ground arith),
)

size_of-Taken :
    (ulong_max : ℕ) (s : Option (List ℕ))
    → let size = size_of ulong_max s in (size.0 ≡ 0) × (size.1 ≡ 0) ⊎ IsSize size.0 size.1
unfolding size_of
size_of-Taken ulong_max none = inl (refl, refl)
size_of-Taken ulong_max (some s) = parse_size_bounds ulong_max s

fps_of-Taken :
    (ulong_max : ℕ) (s : Option (List ℕ)) → (fps_of ulong_max s ≡ 0) ⊎ IsRate (fps_of ulong_max s)
unfolding fps_of
fps_of-Taken ulong_max none = inl refl
fps_of-Taken ulong_max (some s) = parse_fps_bounds ulong_max s

module _ (p : Platform) where
  -- A codec that could be read is set, to a format in range, and one that could not is not.
  abbrev Matched : String → Result CodecParam → Option (String × CodecParam) → Type 0
  Matched codec (ok old) (some (set_codec, new)) = (set_codec ≡ codec) × InRange old new
  Matched codec (ok old) none = ⊥
  Matched codec (err e) none = Unit {0}
  Matched codec (err e) (some setting) = ⊥

  -- So it is for every codec that is read in a trace, and there are no other settings. The argument is
  -- the setting that was made right after the trace.
  abbrev pub Settled : Option (String × CodecParam) → Trace → Type 0
  Settled none [] = Unit {0}
  Settled (some setting) [] = ⊥
  Settled setting (vid_codec_get_param codec ∷ h) =
      Matched codec (p.vid_codec_get_param (vid_codec_get_param codec ∷ h)) setting × Settled none h
  Settled none (vid_codec_set_param codec param ∷ h) = Settled (some (codec, param)) h
  Settled none (_ ∷ h) = Settled none h
  Settled (some setting) (_ ∷ h) = ⊥

  override_codec-Settled :
      (w : Wanted) (codec : String) (r : Result CodecParam) (h : Trace)
      → Taken w
      → p.vid_codec_get_param (vid_codec_get_param codec ∷ h) ≡ r
      → Settled none h
      → Settled none (override_codec p w codec (r, vid_codec_get_param codec ∷ h))
  unfolding override_codec
  override_codec-Settled w codec (ok old) h taken answer s =
      let setting = some (codec, set_format w old) in
      (subst (λ r. Matched codec r setting) (sym answer) (refl, set_format-InRange w old taken), s)
  override_codec-Settled w codec (err e) h taken answer s =
      (subst (λ r. Matched codec r none) (sym answer) tt, s)

  override_codecs-Settled :
      (w : Wanted) (codecs : List String) (h : Trace)
      → Taken w
      → Settled none h
      → Settled none (override_codecs p w codecs h)
  unfolding override_codecs
  override_codecs-Settled w [] h taken s = s
  override_codecs-Settled w (codec ∷ codecs) h taken s =
      let r = p.vid_codec_get_param (vid_codec_get_param codec ∷ h) in
      override_codecs-Settled w codecs (override_codec p w codec (r, vid_codec_get_param codec ∷ h))
        taken (override_codec-Settled w codec r h taken refl s)

  enumerated-Settled :
      (w : Wanted) (r : Result (List String)) (h : Trace)
      → Taken w
      → Settled none h
      → Settled none (enumerated p w (r, h))
  unfolding enumerated
  enumerated-Settled w (err e) h taken s = s
  enumerated-Settled w (ok codecs) h taken s = override_codecs-Settled w codecs h taken s

  wanted_format-Taken : Taken (wanted_format p)
  unfolding wanted_format
  wanted_format-Taken = (
    size_of-Taken p.ulong_max (p.getenv "PJSOCKY_VIDEO_SIZE"),
    fps_of-Taken p.ulong_max (p.getenv "PJSOCKY_VIDEO_FPS"),
  )

  -- Whatever PJSOCKY_VIDEO_SIZE and PJSOCKY_VIDEO_FPS hold, and however pjsua answers: after
  -- apply_video_format_override, each codec that could be read has been set right afterwards, in a size
  -- that is the one it had or from 1x1 to 8192x8192, and at a rate that is the one it had or a whole
  -- number from 1 to 240; a codec that could not be read has not been set, nor has any other. The
  -- condition is that this was so before.
  pub override-Settled :
      (h : Trace) → Settled none h → Settled none (apply_video_format_override p h)
  unfolding apply_video_format_override
  override-Settled h s =
      let w = wanted_format p in
      let q = vid_enum_codecs p.max_codecs in
      if-elim (Settled none) (w.width == 0 && w.fps == 0) (λ g. s)
        (λ g. enumerated-Settled w (p.vid_enum_codecs (q ∷ h)) (q ∷ h) wanted_format-Taken s)
