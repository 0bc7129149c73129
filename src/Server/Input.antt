-- ===== src/Server/Input.antt =====
-- One read event on the control connection against the reading of its bytes as lines.
use pjsocky.Framing.Buffer.{
  max_line, Framing, Fill, filled, eof, pending, error, room, reclaim, fill, line, find_newline,
  consume, extract_line,
}
use pjsocky.Framing.Buffer.Split.{split, split-none, split-some}
use pjsocky.Framing.Buffer.Step.{
  waiting, IsValid, length-waiting, delivered, reclaim-IsValid, fill-Gains,
}
use pjsocky.Framing.Buffer.Drain.{
  consume-IsValid, consume-waiting, consume-len, consume-slice, extract-full, extract-part,
  extract-some, newline_inside,
}
use pjsocky.Server.{
  push_error_event, handle_line, after_extract, handle_lines, receive, after_fill,
  handle_conn_input,
}
use pjsocky.Pjlib.{Pjlib, History, recv}
use pjsocky.World.{World, M}
use pjsocky.Prelude.{
  ℕ, zero, suc, ◌+◌, ◌≤◌, ◌<◌, ◌≡◌, refl, sym, ◌∙◌, ◌⊎◌, inl, inr, none, some, List, [], ◌∷◌, ◌++◌,
  arith, leb, Bool-cases, Option-cases, length, take, drop, take-take, slice, Status, failure,
  success, eeof, etoobig, os,
}

-- The lines handled in order, each to its response, until a response cannot be written.
pub handle_all : Pjlib → List (List ℕ) → M Status
handle_all p [] w = (success, w)
handle_all p (l ∷ ls) w =
    let r = handle_line p l w in
    elim r.0 [ success ↦ handle_all p ls r.1 | failure e ↦ (failure e, r.1) ]

-- What the loop over `bytes` comes to when the lines before the end are handled with `a`: a failed
-- response ends it; otherwise part of a line stays, or a line that is too long is reported.
pub Ends : Pjlib → List ℕ → Status × World → Status × Framing × World → Type 0
Ends p rest (failure e, u) (status, g, v) = (status ≡ failure e) × (v ≡ u)
Ends p rest (success, u) (status, g, v) =
    ((length rest < max_line) × (status ≡ success) × (waiting g ≡ rest) × (v ≡ u))
    ⊎ ((max_line ≤ length rest)
        × (status ≡ failure etoobig)
        × (g.len ≡ 0)
        × (v ≡ push_error_event p "bad_request" "line exceeds maximum length" u))

pub Serves : Pjlib → List ℕ → World → Status × Framing × World → Type 0
Serves p bytes w (status, g, v) =
    IsValid g × Ends p (split bytes).rest (handle_all p (split bytes).full w) (status, g, v)

module _ (p : Pjlib) where
  after_response :
      (g : Framing) (ls : List (List ℕ)) (rest : List ℕ) (next : World → Status × Framing × World)
      (s : Status) (u : World)
      → IsValid g
      → (IsValid (next u).1 × Ends p rest (handle_all p ls u) (next u))
      → let r : Status × Framing × World = elim s [
        | success ↦ next u
        | failure e ↦ (failure e, g, u)
      ] in
        IsValid r.1
        × Ends p rest (elim s [ success ↦ handle_all p ls u | failure e ↦ (failure e, u) ]) r
  unfolding Ends
  after_response g ls rest next success u v h = h
  after_response g ls rest next (failure e) u v h = (v, (refl, refl))

  line_bytes :
      (f : Framing) (n : ℕ) (v : IsValid f) (e : find_newline (waiting f) ≡ some n)
      → slice (consume f n).buf f.start n ≡ take n (waiting f)
  line_bytes f n v e =
      consume-slice f n v (newline_inside f n v e) f.start n (omega arith)
      ∙ sym (take-take n f.len (drop f.start f.buf) (omega (arith, newline_inside f n v e)))

  after_line :
      (next : Framing → World → Status × Framing × World) (f : Framing) (n : ℕ) (w : World)
      → IsValid f
      → find_newline (waiting f) ≡ some n
      → ((u : World) → Serves p (waiting (consume f n)) u (next (consume f n) u))
      → Serves p (waiting f) w (after_extract p next (consume f n, line f.start n) w)
  unfolding Serves handle_all
  after_line next f n w v e rec =
      rw
        (
          split-some (waiting f) n e,
          ← line_bytes f n v e,
          ← consume-waiting f n v (newline_inside f n v e),
        )
        (let r = handle_line p (slice (consume f n).buf f.start n) w in
          after_response (consume f n) _ _ (next (consume f n)) r.0 r.1
            (consume-IsValid f n v (newline_inside f n v e)) (rec r.1))

  no_line :
      (next : Framing → World → Status × Framing × World) (f : Framing) (w : World)
      → IsValid f
      → find_newline (waiting f) ≡ none
      → Serves p (waiting f) w (after_extract p next (extract_line f) w)
  unfolding Serves Ends handle_all
  no_line next f w v e = elim (Bool-cases (leb max_line f.len)) [
    | inl full ↦
        rw (split-none (waiting f) e, extract-full f e full)
          (
            record { within = omega arith; sized = v.sized },
            inr (ground (arith, length-waiting f v), refl, refl, refl),
          )
    | inr part ↦
        rw (split-none (waiting f) e, extract-part f e part)
          (v, inl (ground (arith, length-waiting f v), refl, refl, refl))
  ]

  -- The bytes that wait are served as their lines in order, and fuel for one pass more than there are
  -- bytes is enough.
  handle_lines-Serves :
      (fuel : ℕ) (f : Framing) (w : World)
      → IsValid f
      → f.len < fuel
      → Serves p (waiting f) w (handle_lines p fuel f w)
  unfolding handle_lines
  handle_lines-Serves zero f w v h = elim h [ ]
  handle_lines-Serves (suc fuel) f w v h = elim (Option-cases (find_newline (waiting f))) [
    | inl e ↦ no_line (handle_lines p fuel) f w v e
    | inr (n, e) ↦
        let inside = newline_inside f n v e in
        rw (extract-some f n e) (
          after_line (handle_lines p fuel) f n w v e (λ u.
            handle_lines-Serves fuel (consume f n) u (consume-IsValid f n v inside)
              (omega (arith, consume-len f n v inside))))
  ]

-- recv() delivers at most the bytes that it is asked for.
abbrev pub RecvFits : Pjlib → Type 0
RecvFits p = (h : History) (sock size : ℕ) → length (delivered (p.recv (recv sock size ∷ h))) ≤ size

-- What one read event comes to, by what the read found.
pub Handles : Pjlib → Fill → List ℕ → World → Status × Framing × World → Type 0
Handles p filled bytes w r = Serves p bytes w r
Handles p pending bytes w (status, g, v) =
    (status ≡ success) × IsValid g × (waiting g ≡ bytes) × (v ≡ w)
Handles p eof bytes w (status, g, v) = (status ≡ failure eeof) × IsValid g × (v ≡ w)
Handles p (error e) bytes w (status, g, v) = (status ≡ failure (os e)) × IsValid g × (v ≡ w)

module _ (p : Pjlib) where
  receive-fits :
      (sock : ℕ) (f : Framing) (w : World)
      → IsValid f
      → RecvFits p
      → length (delivered (receive p sock f w).0) ≤ room f
  unfolding receive delivered
  receive-fits sock f w v fits =
      ground (arith, fits w.history sock (room (reclaim f)), reclaim-IsValid f v)

  after_fill-Handles :
      (r : Framing × Fill) (bytes : List ℕ) (w : World)
      → IsValid r.0
      → waiting r.0 ≡ bytes
      → Handles p r.1 bytes w (after_fill p r w)
  unfolding Handles after_fill
  after_fill-Handles (g, pending) bytes w v e = (refl, v, e, refl)
  after_fill-Handles (g, eof) bytes w v e = (refl, v, refl)
  after_fill-Handles (g, error x) bytes w v e = (refl, v, refl)
  after_fill-Handles (g, filled) bytes w v e =
      rw (← e) (handle_lines-Serves p (g.len + 1) g w v (omega arith))

-- One read event on a valid buffer. Where the read delivered bytes or found the buffer full, the complete lines among
-- the bytes that waited and those delivered are handled in order, each as the bytes before its
-- newline, until a response cannot be written; then what is behind the last newline stays for the
-- next read if it is shorter than the longest line, and ends the connection with a "bad_request" event
-- if not. A read with nothing to deliver keeps the connection and what waits, and a
-- closed peer or an error gives its status; both change nothing outside the buffer. The buffer stays valid in every case. The condition on the environment is that recv()
-- delivers at most what it is asked for.
pub handle_conn_input-Handles :
    (p : Pjlib) (sock : ℕ) (f : Framing) (w : World)
    → IsValid f
    → RecvFits p
    → let r = receive p sock f w in
      Handles p (fill f r.0).1 (waiting f ++ delivered r.0) r.1 (handle_conn_input p sock f w)
unfolding handle_conn_input
handle_conn_input-Handles p sock f w v fits =
    let r = receive p sock f w in
    let (valid, front, gained) = fill-Gains f r.0 v (receive-fits p sock f w v fits) in
    after_fill-Handles p (fill f r.0) _ r.1 valid gained

Handles-IsValid :
    (p : Pjlib) (r : Fill) (bytes : List ℕ) (w : World) (s : Status × Framing × World)
    → Handles p r bytes w s
    → IsValid s.1
unfolding Handles Serves
Handles-IsValid p filled bytes w s h = h.0
Handles-IsValid p pending bytes w s h = h.1
Handles-IsValid p eof bytes w s h = h.1
Handles-IsValid p (error e) bytes w s h = h.1

-- The buffer stays well-formed over a read event.
pub handle_conn_input-IsValid :
    (p : Pjlib) (sock : ℕ) (f : Framing) (w : World)
    → IsValid f
    → RecvFits p
    → IsValid (handle_conn_input p sock f w).1
handle_conn_input-IsValid p sock f w v fits =
    Handles-IsValid p _ _ _ _ (handle_conn_input-Handles p sock f w v fits)
