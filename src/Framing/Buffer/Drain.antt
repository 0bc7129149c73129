-- ===== src/Framing/Buffer/Drain.antt =====
-- Taking lines out of the buffer until none is left, as the server does after each read. A returned
-- line points into the buffer, so each must still read the same when the last one has been taken.
use pjsocky.Framing.Buffer.{
  max_line, Framing, find_newline, Extract, line, incomplete, too_big, consume, extract_line,
}
use pjsocky.Framing.Buffer.Split.{split, split-none, split-some}
use pjsocky.Framing.Buffer.Step.{waiting, IsValid, length-waiting}
use native.Mathlib.Numerals.{add-one}
use pjsocky.Prelude.{
  ℕ, zero, suc, ◌+◌, ◌-◌, ◌≤◌, ◌<◌, ◌≡◌, refl, sym, ◌∙◌, ◌⊎◌, inl, inr, true, false, Option, none,
  some, List, [], ◌∷◌, map, arith, leb, ◌==◌, Bool-cases, Option-cases, length, set, take, drop,
  slice, slice-set, drop-take, drop-drop, drop-set_lt, take-take, length-set,
}

-- The lines taken, as offsets and lengths, and what ended the loop.
pub record Drained : Type 0 where
  pub final : Framing
  pub taken : List (ℕ × ℕ)
  pub ending : Extract

abbrev then_line : ℕ → ℕ → Option Drained → Option Drained
then_line off n none = none
then_line off n (some d) = some (record d { taken = (off, n) ∷ d.taken })

pub drain : ℕ → Framing → Option Drained
drain zero f = none
drain (suc fuel) f =
    let (g, r) = extract_line f in
    elim r [
      | line off n ↦ then_line off n (drain fuel g)
      | incomplete ↦ some (record { final = g; taken = []; ending = incomplete })
      | too_big ↦ some (record { final = g; taken = []; ending = too_big })
    ]

pub find_newline-lt : (bs : List ℕ) (n : ℕ) → find_newline bs ≡ some n → n < length bs
unfolding find_newline
find_newline-lt [] n h = cc
find_newline-lt (b ∷ bs) zero h = omega arith
find_newline-lt (b ∷ bs) (suc n) h = ground (arith, find_newline-lt bs n)

module _ (f : Framing) (n : ℕ) (v : IsValid f) (inside : n < f.len) where
  pub consume-IsValid : IsValid (consume f n)
  unfolding consume
  consume-IsValid = ground (arith, length-set f.buf (f.start + n) 0)

  left_over :
      take (f.len - (n + 1)) (drop (f.start + (n + 1)) (set f.buf (f.start + n) 0))
      ≡ drop (suc n) (waiting f)
  left_over = rw (
    drop-set_lt (f.start + (n + 1)) f.buf (f.start + n) 0 (omega arith),
    add-one n,
    drop-take (suc n) f.len (drop f.start f.buf),
    drop-drop f.start (suc n) f.buf,
  )

  pub consume-waiting : waiting (consume f n) ≡ drop (suc n) (waiting f)
  unfolding consume
  consume-waiting = elim (Bool-cases (f.len - (n + 1) == 0)) [
    | inl e ↦ rw e (rw (← left_over) (ground arith))
    | inr e ↦ rw e left_over
  ]

  -- Bytes in front of the newline stay as they are.
  pub consume-slice :
      (off k : ℕ) → off + k ≤ f.start + n → slice (consume f n).buf off k ≡ slice f.buf off k
  unfolding consume
  consume-slice off k h = slice-set f.buf off k (f.start + n) 0 h

  consume-start : (f.start + n < (consume f n).start) ⊎ ((consume f n).len ≡ 0)
  unfolding consume
  consume-start = ground arith

  pub consume-len : (consume f n).len < f.len
  unfolding consume
  consume-len = omega arith

abbrev pub read : List ℕ → ℕ × ℕ → List ℕ
read buf (off, n) = slice buf off n

-- The slice lies in the part of the buffer that no later call writes.
abbrev Held : Framing → ℕ → ℕ → Type 0
Held f off n = (off + n ≤ f.start) ⊎ (f.len ≡ 0)

-- The loop ends with part of a line in the buffer, or with a full buffer that holds none.
abbrev pub Ends : Framing → Drained → Type 0
Ends f d =
    ((d.ending ≡ incomplete)
      × (waiting d.final ≡ (split (waiting f)).rest)
      × (length (split (waiting f)).rest < max_line))
    ⊎ ((d.ending ≡ too_big) × (d.final.len ≡ 0) × (max_line ≤ length (split (waiting f)).rest))

pub record Drains (f : Framing) (d : Drained) : Type 0 where
  pub valid : IsValid d.final
  pub lines : map (read d.final.buf) d.taken ≡ (split (waiting f)).full
  pub ends : Ends f d
  kept : (off n : ℕ) → Held f off n → slice d.final.buf off n ≡ slice f.buf off n

pub extract-full :
    (f : Framing)
    → find_newline (waiting f) ≡ none
    → leb max_line f.len ≡ true
    → extract_line f ≡ (record f { start = 0; len = 0 }, too_big)
unfolding extract_line
extract-full f e full = ground arith

pub extract-part :
    (f : Framing)
    → find_newline (waiting f) ≡ none
    → leb max_line f.len ≡ false
    → extract_line f ≡ (f, incomplete)
unfolding extract_line
extract-part f e part = ground arith

pub extract-some :
    (f : Framing) (n : ℕ)
    → find_newline (waiting f) ≡ some n
    → extract_line f ≡ (consume f n, line f.start n)
unfolding extract_line
extract-some f n e = ground arith

no_line :
    (fuel : ℕ) (f : Framing)
    → IsValid f
    → find_newline (waiting f) ≡ none
    → (d : Drained) × (drain (suc fuel) f ≡ some d) × Drains f d
unfolding drain
no_line fuel f v e = elim (Bool-cases (leb max_line f.len)) [
  | inl full ↦ (
    record { final = record f { start = 0; len = 0 }; taken = []; ending = too_big },
    ground (arith, extract-full f e full),
    record {
      valid = ground arith;
      lines = rw (split-none (waiting f) e);
      ends = inr (refl, refl, rw (split-none (waiting f) e) (ground (arith, length-waiting f v)));
      kept = λ off n h. refl;
    },
  )
  | inr part ↦ (
    record { final = f; taken = []; ending = incomplete },
    ground (arith, extract-part f e part),
    record {
      valid = v;
      lines = rw (split-none (waiting f) e);
      ends = inl (
        refl,
        rw (split-none (waiting f) e),
        rw (split-none (waiting f) e) (ground (arith, length-waiting f v)),
      );
      kept = λ off n h. refl;
    },
  )
]

module _ (f : Framing) (n : ℕ) (v : IsValid f) (e : find_newline (waiting f) ≡ some n) where
  pub newline_inside : n < f.len
  newline_inside = omega (arith, find_newline-lt (waiting f) n e, length-waiting f v)

  taken_line :
      (d : Drained) → Drains (consume f n) d → slice d.final.buf f.start n ≡ take n (waiting f)
  taken_line d rec =
      rec.kept f.start n (ground (arith, consume-start f n v newline_inside))
      ∙ consume-slice f n v newline_inside f.start n (omega arith)
      ∙ sym (take-take n f.len (drop f.start f.buf) (omega (arith, newline_inside)))

  consume-Held : (off k : ℕ) → Held f off k → Held (consume f n) off k
  consume-Held off k h = ground (arith, consume-start f n v newline_inside, newline_inside)

  line_Drains :
      (d : Drained)
      → Drains (consume f n) d
      → Drains f (record d { taken = (f.start, n) ∷ d.taken })
  line_Drains d rec = record {
    valid = rec.valid;
    lines = rw (
      split-some (waiting f) n e,
      ← consume-waiting f n v newline_inside,
      rec.lines,
      taken_line d rec,
    );
    ends = rw (split-some (waiting f) n e, ← consume-waiting f n v newline_inside) rec.ends;
    kept = λ off k h.
        rec.kept off k (consume-Held off k h)
        ∙ consume-slice f n v newline_inside off k (ground (arith, newline_inside));
  }

-- Whatever waits in the buffer, the loop takes its complete lines in order, each still readable in
-- the buffer when the loop ends; what is left is the part behind the last newline, unless that
-- fills the buffer, when it is discarded and the loop says so.
pub drain-Drains :
    (fuel : ℕ) (f : Framing)
    → IsValid f
    → f.len < fuel
    → (d : Drained) × (drain fuel f ≡ some d) × Drains f d
unfolding drain
drain-Drains zero f v h = elim h [ ]
drain-Drains (suc fuel) f v h = elim (Option-cases (find_newline (waiting f))) [
  | inl e ↦ no_line fuel f v e
  | inr (n, e) ↦
      let inside = newline_inside f n v e in
      let (d, done, rec) =
        drain-Drains fuel (consume f n) (consume-IsValid f n v inside)
          (omega (arith, consume-len f n v inside)) in
      (
        record d { taken = (f.start, n) ∷ d.taken },
        ground (arith, extract-some f n e),
        line_Drains f n v e d rec,
      )
]
