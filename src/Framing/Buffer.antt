-- ===== src/Framing/Buffer.antt =====
-- The receive side of src/proto/framing.c and framing.h: the line buffer, how a read fills it and
-- how complete lines are taken out of it. A line is returned as the offset and the length of its
-- bytes in the buffer, as the C pointer is. What recv() delivers is an argument.
pub mod Split
pub mod Step
pub mod Drain
mod Tests
use pjsocky.Prelude.{
  ℕ, suc, ◌+◌, ◌-◌, Option, none, some, List, [], ◌∷◌, ◌++◌, ◌==◌, ltb, leb, if◌then◌else◌, length,
  take, drop, set, replicate,
}

-- PJSOCKY_MAX_LINE
abbrev pub max_line : ℕ
max_line = 8192

abbrev pub newline : ℕ
newline = b'\n'

pub record Framing : Type 0 where
  pub start : ℕ
  pub len : ℕ
  pub buf : List ℕ

-- A framing that pj_bzero() has cleared.
unfoldable pub cleared : Framing
cleared = record { start = 0; len = 0; buf = replicate (max_line + 1) 0 }

-- The buffer keeps the bytes of its last use.
unfoldable pub init : Framing → Framing
init f = record f { start = 0; len = 0 }

-- Bytes that are written over a buffer from an offset on.
unfoldable pub overwrite : ℕ → List ℕ → List ℕ → List ℕ
overwrite at bs buf = take at buf ++ bs ++ drop (at + length bs) buf

-- The pj_memmove of the unconsumed bytes to the front.
unfoldable pub reclaim : Framing → Framing
reclaim f =
    if ltb 0 f.start
    then record f {
      buf = if ltb 0 f.len then overwrite 0 (take f.len (drop f.start f.buf)) f.buf else f.buf;
      start = 0;
    }
    else f

-- What recv() answers: bytes (none when the peer closed), nothing to read yet, or an error.
pub data Recv : Type 0 where
  received : List ℕ → Recv
  would_block : Recv
  failed : ℕ → Recv

pub data Fill : Type 0 where
  filled eof pending : Fill
  error : ℕ → Fill

-- The size that recv() is asked for.
abbrev pub room : Framing → ℕ
room f = max_line - f.len

append_received : Framing → Recv → Framing × Fill
append_received f (received []) = (f, eof)
append_received f (received (b ∷ bs)) =
    (record f { buf = overwrite f.len (b ∷ bs) f.buf; len = f.len + length (b ∷ bs) }, filled)
append_received f would_block = (f, pending)
append_received f (failed e) = (f, error e)

unfoldable pub fill : Framing → Recv → Framing × Fill
unfolding append_received
fill f r = let g = reclaim f in if room g == 0 then (g, filled) else append_received g r

-- pj_memchr for a newline: its offset.
unfoldable pub find_newline : List ℕ → Option ℕ
find_newline [] = none
find_newline (b ∷ bs) =
    if b == newline then some 0 else elim (find_newline bs) [ none ↦ none | some i ↦ some (suc i) ]

pub data Extract : Type 0 where
  line : ℕ → ℕ → Extract
  incomplete too_big : Extract

-- The line of `n` bytes at the start is closed by a NUL and consumed with its newline.
unfoldable pub consume : Framing → ℕ → Framing
consume f n =
    let left = f.len - (n + 1) in
    record {
      start = if left == 0 then 0 else f.start + (n + 1);
      len = left;
      buf = set f.buf (f.start + n) 0;
    }

unfoldable pub extract_line : Framing → Framing × Extract
extract_line f = elim (find_newline (take f.len (drop f.start f.buf))) [
  | none ↦
      if leb max_line f.len then (record f { start = 0; len = 0 }, too_big) else (f, incomplete)
  | some n ↦ (consume f n, line f.start n)
]
