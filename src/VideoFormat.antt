-- ===== src/VideoFormat.antt =====
-- The parsing of PJSOCKY_VIDEO_SIZE and PJSOCKY_VIDEO_FPS by apply_video_format_override of src/main.c.
-- Text is a list of bytes without a NUL. How the codecs are then set is left out.
pub mod Parse
mod Tests
use Prim.Native.Nat.{min}
use pjsocky.Prelude.{
  ℕ, ◌+◌, ◌-◌, ◌*◌, Bool, true, false, not, ◌&&◌, ◌||◌, List, [], ◌∷◌, ltb, leb, ◌==◌,
  if◌then◌else◌,
}

-- PJSOCKY_VIDEO_MAX_DIM and PJSOCKY_VIDEO_MAX_FPS
abbrev pub max_dim : ℕ
max_dim = 8192

abbrev pub max_fps : ℕ
max_fps = 240

abbrev pub is_digit : ℕ → Bool
is_digit c = leb b'0' c && leb c b'9'

-- pj_isdigit(*s)
abbrev pub starts_with_digit : List ℕ → Bool
starts_with_digit [] = false
starts_with_digit (c ∷ s) = is_digit c

-- *end == 'x' || *end == 'X'
abbrev pub starts_with_x : List ℕ → Bool
starts_with_x [] = false
starts_with_x (c ∷ s) = c == b'x' || c == b'X'

abbrev pub is_end : List ℕ → Bool
is_end [] = true
is_end (c ∷ s) = false

abbrev pub tail : List ℕ → List ℕ
tail [] = []
tail (c ∷ s) = s

-- The digits of strtoul in base 10, read behind `acc`.
abbrev pub digits : (acc : ℕ) → List ℕ → ℕ × List ℕ
digits acc [] = (acc, [])
digits acc (c ∷ s) =
    let read = digits (acc * 10 + (c - b'0')) s in if is_digit c then read else (acc, c ∷ s)

-- `ulong_max` is ULONG_MAX of the platform, which strtoul returns for what is larger.
module _ (ulong_max : ℕ) where
  abbrev pub strtoul : List ℕ → ℕ × List ℕ
  strtoul s = let read = digits 0 s in (min ulong_max read.0, read.1)

  abbrev pub first_number : List ℕ → ℕ × List ℕ
  first_number s = if starts_with_digit s then strtoul s else (0, s)

  -- `h`, from `w` and `end`.
  abbrev pub second_number : ℕ × List ℕ → ℕ × List ℕ
  second_number (w, end) =
      if not (w == 0) && (starts_with_x end && starts_with_digit (tail end))
      then strtoul (tail end)
      else (0, end)

  abbrev pub checked_size : (w h : ℕ) → List ℕ → ℕ × ℕ
  checked_size w h end =
      if w == 0 || (h == 0 || (not (is_end end) || (ltb max_dim w || ltb max_dim h)))
      then (0, 0)
      else (w, h)

  -- The width and the height; both are zero where the value is ignored.
  unfoldable pub parse_size : List ℕ → ℕ × ℕ
  parse_size size_str =
      let first = first_number size_str in
      let second = second_number first in checked_size first.0 second.0 second.1

  unfoldable pub parse_fps : List ℕ → ℕ
  parse_fps fps_str =
      let (f, end) = first_number fps_str in
      if f == 0 || (not (is_end end) || ltb max_fps f) then 0 else f
