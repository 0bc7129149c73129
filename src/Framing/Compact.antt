-- ===== src/Framing/Compact.antt =====
-- compact_json of src/proto/framing.c: the pretty-printed text is shortened in place, by one pass
-- with a read position `i` and a write position `out` in the same buffer.
pub mod InPlace
pub mod Tokens
mod Tests
use pjsocky.Prelude.{ℕ, zero, suc, Bool, true, false, List, ◌||◌, ◌==◌, if◌then◌else◌, set, get_or}

-- The locals of the loop that decide what a byte is.
pub record Mode : Type 0 where
  pub in_string : Bool
  pub escaped : Bool

abbrev pub outside : Mode
outside = record { in_string = false; escaped = false }

abbrev pub quote : ℕ
quote = b'"'

abbrev pub backslash : ℕ
backslash = b'\\'

abbrev pub is_blank : ℕ → Bool
is_blank c = c == b' ' || (c == b'\t' || (c == b'\r' || c == b'\n'))

-- The mode after a byte, and whether the byte is kept.
next_in_string : Mode → ℕ → Mode
next_in_string m c =
    if m.escaped
    then record m { escaped = false }
    else if c == backslash
    then record m { escaped = true }
    else if c == quote
    then record m { in_string = false }
    else m

unfoldable pub next : Mode → ℕ → Mode
unfolding next_in_string
next m c =
    if m.in_string
    then next_in_string m c
    else if c == quote
    then record m { in_string = true }
    else m

unfoldable pub keeps : Mode → ℕ → Bool
keeps m c =
    if m.in_string then true else if c == quote then true else if is_blank c then false else true

-- The loop with `left` bytes still to read; the result is the buffer and the final `out`.
unfoldable pub loop : (left : ℕ) (buf : List ℕ) (i out : ℕ) → Mode → List ℕ × ℕ
loop zero buf i out m = (buf, out)
loop (suc left) buf i out m =
    let c = get_or buf i 0 in
    loop left (if keeps m c then set buf out c else buf) (suc i)
      (if keeps m c then suc out else out) (next m c)

unfoldable pub compact_json : List ℕ → ℕ → List ℕ × ℕ
unfolding loop
compact_json buf len = loop len buf 0 0 outside
