-- ===== src/VideoFormat/Parse.antt =====
-- Which values of PJSOCKY_VIDEO_SIZE and PJSOCKY_VIDEO_FPS are taken.
use Prim.Native.Nat.{min}
use pjsocky.VideoFormat.{
  max_dim, max_fps, is_digit, starts_with_digit, digits, strtoul, first_number, second_number,
  is_end, checked_size, parse_size, parse_fps,
}
use pjsocky.Prelude.{
  ℕ, zero, suc, ◌+◌, ◌-◌, ◌*◌, ◌≤◌, ◌<◌, ◌≡◌, refl, sym, ap, ◌∙◌, ◌⊎◌, Bool, true, false, not, ◌&&◌,
  ◌||◌, List, [], ◌∷◌, ◌++◌, append-nil, arith, ltb, leb, ◌==◌, if◌then◌else◌,
}

abbrev pub AreDigits : List ℕ → Type 0
AreDigits [] = Unit {0}
AreDigits (c ∷ s) = (is_digit c ≡ true) × AreDigits s

-- The number that digits stand for, behind `acc`.
abbrev pub value : (acc : ℕ) → List ℕ → ℕ
value acc [] = acc
value acc (c ∷ s) = value (acc * 10 + (c - b'0')) s

abbrev pub is_within : (bound : ℕ) → ℕ → Bool
is_within bound v = ltb 0 v && leb v bound

pub digits-value :
    (acc : ℕ) (s rest : List ℕ)
    → AreDigits s
    → starts_with_digit rest ≡ false
    → digits acc (s ++ rest) ≡ (value acc s, rest)
digits-value acc [] [] all h = refl
digits-value acc [] (c ∷ rest) all h = rw h
digits-value acc (c ∷ s) rest (g, all) h = rw (g, digits-value (acc * 10 + (c - b'0')) s rest all h)

checked_size_lem :
    (m w h : ℕ)
    → max_dim < m
    → checked_size m (min m w) (min m h) []
      ≡ (if is_within max_dim w && is_within max_dim h then (w, h) else (0, 0))
checked_size_lem m w h room = ground arith

checked_size_bounds :
    (m w h : ℕ) (end : List ℕ)
    → let size = checked_size m w h end in
      (size.0 ≡ 0) × (size.1 ≡ 0)
      ⊎ (0 < size.0) × (size.0 ≤ max_dim) × (0 < size.1) × (size.1 ≤ max_dim)
checked_size_bounds m w h [] = ground arith
checked_size_bounds m w h (c ∷ end) = ground arith

-- A size is either ignored, or each side is from 1 to 8192.
pub parse_size_bounds :
    (ulong_max : ℕ) (size_str : List ℕ)
    → let size = parse_size ulong_max size_str in
      (size.0 ≡ 0) × (size.1 ≡ 0)
      ⊎ (0 < size.0) × (size.0 ≤ max_dim) × (0 < size.1) × (size.1 ≤ max_dim)
unfolding parse_size
parse_size_bounds ulong_max size_str =
    let first = first_number ulong_max size_str in
    let second = second_number ulong_max first in
    checked_size_bounds ulong_max first.0 second.0 second.1

x-not_digit : (x : ℕ) → (x == b'x' || x == b'X') ≡ true → is_digit x ≡ false
x-not_digit x h = ground arith

strtoul-value :
    (m : ℕ) (s rest : List ℕ)
    → AreDigits s
    → starts_with_digit rest ≡ false
    → strtoul m (s ++ rest) ≡ (min m (value 0 s), rest)
strtoul-value m s rest all h = ap (λ r. (min m r.0, r.1)) (digits-value 0 s rest all h)

strtoul-all : (m : ℕ) (s : List ℕ) → AreDigits s → strtoul m s ≡ (min m (value 0 s), [])
strtoul-all m s all = ap (strtoul m) (sym (append-nil s)) ∙ strtoul-value m s [] all refl

first_number-value :
    (m c : ℕ) (s rest : List ℕ)
    → AreDigits (c ∷ s)
    → starts_with_digit rest ≡ false
    → first_number m (c ∷ (s ++ rest)) ≡ (min m (value 0 (c ∷ s)), rest)
first_number-value m c s rest (g, all) h =
    ap (λ b. if b then strtoul m (c ∷ (s ++ rest)) else (0, c ∷ (s ++ rest))) g
    ∙ strtoul-value m (c ∷ s) rest (g, all) h

second_number-value :
    (m w x d : ℕ) (t : List ℕ)
    → (x == b'x' || x == b'X') ≡ true
    → AreDigits (d ∷ t)
    → let second = second_number m (w, x ∷ d ∷ t) in
      checked_size m w second.0 second.1 ≡ checked_size m w (min m (value 0 (d ∷ t))) []
second_number-value m zero x d t h all = refl
second_number-value m (suc w) x d t h (g, all) =
    let nonzero : not (suc w == 0) ≡ true = ground arith in
    let cond : (not (suc w == 0) && ((x == b'x' || x == b'X') && is_digit d)) ≡ true =
      rw (nonzero, h, g) in
    ap (λ r. checked_size m (suc w) r.0 r.1)
      (ap (λ b. if b then strtoul m (d ∷ t) else (0, x ∷ d ∷ t)) cond
        ∙ strtoul-all m (d ∷ t) (g, all))

-- Two numbers with an x or X between them are taken as the width and the height exactly if each is
-- from 1 to 8192, however many digits they have, if ULONG_MAX is above 8192.
pub parse_size-value :
    (ulong_max : ℕ) (c : ℕ) (s : List ℕ) (x d : ℕ) (t : List ℕ)
    → max_dim < ulong_max
    → AreDigits (c ∷ s)
    → (x == b'x' || x == b'X') ≡ true
    → AreDigits (d ∷ t)
    → let w = value 0 (c ∷ s) in
      let h = value 0 (d ∷ t) in
      parse_size ulong_max (c ∷ (s ++ x ∷ d ∷ t))
      ≡ (if is_within max_dim w && is_within max_dim h then (w, h) else (0, 0))
unfolding parse_size
parse_size-value m c s x d t room first is_x second =
    ap (λ r. let n = second_number m r in checked_size m r.0 n.0 n.1)
      (first_number-value m c s (x ∷ d ∷ t) first (x-not_digit x is_x))
    ∙ second_number-value m (min m (value 0 (c ∷ s))) x d t is_x second
    ∙ checked_size_lem m (value 0 (c ∷ s)) (value 0 (d ∷ t)) room

-- What parse_fps makes of the number and of what follows it.
abbrev checked_fps : ℕ × List ℕ → ℕ
checked_fps r = if r.0 == 0 || (not (is_end r.1) || ltb max_fps r.0) then 0 else r.0

checked_fps_bounds :
    (f : ℕ) (end : List ℕ)
    → (checked_fps (f, end) ≡ 0) ⊎ (0 < checked_fps (f, end)) × (checked_fps (f, end) ≤ max_fps)
checked_fps_bounds f [] = ground arith
checked_fps_bounds f (c ∷ end) = ground arith

-- So is a frame rate, between 1 and 240.
pub parse_fps_bounds :
    (ulong_max : ℕ) (fps_str : List ℕ)
    → let fps = parse_fps ulong_max fps_str in (fps ≡ 0) ⊎ (0 < fps) × (fps ≤ max_fps)
unfolding parse_fps
parse_fps_bounds ulong_max fps_str =
    let first = first_number ulong_max fps_str in checked_fps_bounds first.0 first.1

trailing_fps : (f e : ℕ) (rest : List ℕ) → checked_fps (f, e ∷ rest) ≡ 0
trailing_fps f e rest = ground arith

checked_fps_lem :
    (m f : ℕ)
    → max_fps < m
    → (if min m f == 0 || ltb max_fps (min m f) then 0 else min m f)
      ≡ (if is_within max_fps f then f else 0)
checked_fps_lem m f room = ground arith

-- A number is taken as the frame rate exactly if it is from 1 to 240, however many digits it has, if
-- ULONG_MAX is above 240; followed by anything but a digit it is ignored.
parse_fps-value :
    (ulong_max : ℕ) (c : ℕ) (s : List ℕ) (e : ℕ) (rest : List ℕ)
    → max_fps < ulong_max
    → AreDigits (c ∷ s)
    → is_digit e ≡ false
    → (parse_fps ulong_max (c ∷ s)
        ≡ (if is_within max_fps (value 0 (c ∷ s)) then value 0 (c ∷ s) else 0))
      × (parse_fps ulong_max (c ∷ (s ++ e ∷ rest)) ≡ 0)
unfolding parse_fps
parse_fps-value m c s e rest room all h = (
  ap (λ z. checked_fps (first_number m (c ∷ z))) (sym (append-nil s))
      ∙ ap checked_fps (first_number-value m c s [] all refl)
      ∙ checked_fps_lem m (value 0 (c ∷ s)) room,
  ap checked_fps (first_number-value m c s (e ∷ rest) all h)
      ∙ trailing_fps (min m (value 0 (c ∷ s))) e rest,
)
