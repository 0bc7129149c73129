-- ===== src/Framing/Send.antt =====
-- The send side of src/proto/framing.c: send_all with its deadline, a line with its newline, and a
-- JSON value as one line.
pub mod Peer
pub mod Wire
pub mod Line
pub mod Total
pub mod Said
mod Tests
use pjsocky.Framing.Buffer.{max_line, newline, overwrite}
use pjsocky.Framing.Compact.{compact_json}
use pjsocky.Json.{Value}
use pjsocky.Pjlib.{
  Pjlib, Request, send, tick_count, wait_writable, json_write, eagain, eintr, writable, expired,
  wait_error,
}
use pjsocky.World.{World, Connection, M, ◌>>=◌, ◌>>◌, pure, ask}
use pjsocky.Prelude.{
  ℕ, zero, suc, ◌+◌, ◌-◌, ◌*◌, Bool, false, Option, none, some, List, [], ◌∷◌, leb, ◌==◌,
  if◌then◌else◌, length, take, drop, Error, Status, is_success, failure, success, eeof, etimedout,
  os, ok, err,
}

-- EAGAIN and EWOULDBLOCK are one number on Linux.
abbrev pub is_would_block : Error → Bool
is_would_block (os e) = e == eagain
is_would_block _ = false

-- How one round of the loop ends.
pub data Round : Type 0 where
  stop : Error → Round
  sent : ℕ → Round
  again : Round

-- The text that pj_json_write() puts into the scratch buffer, after compact_json.
unfoldable pub compacted : List ℕ → List ℕ
unfolding compact_json
compacted text = let r = compact_json text (length text) in take r.1 r.0

module _ (p : Pjlib) where
  -- The wait for writability within what is left of the deadline.
  unfoldable pub wait_round : (sock timeout started : ℕ) → M Round
  wait_round sock timeout started = do
    now ← ask tick_count p.tick_count
    let elapsed = now - started
    if leb timeout elapsed then pure (stop etimedout) else do
      n ← ask (wait_writable sock (timeout - elapsed)) p.wait_writable
      pure (elim n [
        | writable ↦ again
        | expired ↦ stop etimedout
        | wait_error e ↦ if e == eintr then again else stop (os e)
      ])

  unfoldable pub send_round : (sock timeout started : ℕ) → List ℕ → M Round
  unfolding wait_round
  send_round sock timeout started rest = do
    r ← ask (send sock rest) p.send
    elim r [
      | ok n ↦ pure (if n == 0 then stop eeof else sent n)
      | err e ↦ if is_would_block e then wait_round sock timeout started else pure (stop e)
    ]

  -- The next pass of the loop, `loop`, after a round.
  abbrev after_round : (List ℕ → M (Option Status)) → Round → List ℕ → M (Option Status)
  after_round loop (stop e) rest = pure (some (failure e))
  after_round loop (sent n) rest = loop (drop n rest)
  after_round loop again rest = loop rest

  -- The loop; `none` when the fuel is gone.
  unfoldable pub send_loop : ℕ → (sock timeout started : ℕ) → List ℕ → M (Option Status)
  send_loop zero sock timeout started rest w = (none, w)
  send_loop (suc fuel) sock timeout started [] w = (some success, w)
  send_loop (suc fuel) sock timeout started (b ∷ rest) w =
      let r = send_round sock timeout started (b ∷ rest) w in
      after_round (send_loop fuel sock timeout started) r.0 (b ∷ rest) r.1

  -- A byte needs one wait and one send at most, and a signal costs a round (Send/Total).
  abbrev pub rounds : List ℕ → ℕ
  rounds buf = 2 * length buf + p.max_interrupts + 2

  abbrev or_timed_out : Option Status → Status
  or_timed_out none = failure etimedout
  or_timed_out (some s) = s

  unfoldable pub send_all : ℕ → List ℕ → ℕ → M Status
  unfolding send_loop
  send_all sock buf timeout = do
    started ← ask tick_count p.tick_count
    r ← send_loop (rounds buf) sock timeout started buf
    pure (or_timed_out r)

  unfoldable pub write_line : Connection → List ℕ → M Status
  write_line c line = do
    status ← send_all c.sock line c.write_timeout_msec
    if is_success status then send_all c.sock (newline ∷ []) c.write_timeout_msec else pure status

  unfoldable pub write_json : Connection → Value → ℕ → M Status
  write_json c elem scratch_size = do
    r ← ask (json_write elem scratch_size) p.json_write
    elim r [ ok text ↦ write_line c (compacted text) | err e ↦ pure (failure e) ]
