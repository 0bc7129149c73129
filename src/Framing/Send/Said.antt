-- ===== src/Framing/Send/Said.antt =====
-- A JSON value that is sent is the one thing that is said; its bytes, the waits and the clock are not.
use pjsocky.Framing.Buffer.{newline}
use pjsocky.Framing.Send.{
  Round, stop, sent, again, wait_round, after_round, send_round, send_loop, rounds, send_all,
  write_line, compacted, write_json,
}
use pjsocky.Json.{Value}
use pjsocky.Pjlib.{Pjlib, tick_count, json_write}
use pjsocky.Protocol.Message.{Messages, IsMessage}
use pjsocky.Protocol.Said.{said, Silent, Proper}
use pjsocky.World.{World, Connection, M}
use pjsocky.Prelude.{
  ℕ, zero, suc, ◌≡◌, refl, sym, ◌∙◌, subst, inl, inr, Option, List, [], ◌∷◌, arith, drop, Status,
  Result-cases, Status-cases,
}

module _ (p : Pjlib) (sock timeout started : ℕ) where
  wait_round-Silent : (w : World) → Silent w (wait_round p sock timeout started w).1
  unfolding wait_round
  wait_round-Silent w = ground arith

  send_round-Silent :
      (bs : List ℕ) (w : World) → Silent w (send_round p sock timeout started bs w).1
  unfolding send_round
  send_round-Silent bs w = ground arith

  after_round-Silent :
      (loop : List ℕ → M (Option Status))
      → ((bs : List ℕ) (w : World) → Silent w (loop bs w).1)
      → (r : Round) (bs : List ℕ) (w : World) → Silent w (after_round p loop r bs w).1
  after_round-Silent loop ih (stop e) bs w = refl
  after_round-Silent loop ih (sent n) bs w = ih (drop n bs) w
  after_round-Silent loop ih again bs w = ih bs w

  send_loop-Silent :
      (fuel : ℕ) (bs : List ℕ) (w : World) → Silent w (send_loop p fuel sock timeout started bs w).1
  unfolding send_loop
  send_loop-Silent zero bs w = refl
  send_loop-Silent (suc fuel) [] w = refl
  send_loop-Silent (suc fuel) (b ∷ bs) w =
      let r = send_round p sock timeout started (b ∷ bs) w in
      after_round-Silent (send_loop p fuel sock timeout started) (send_loop-Silent fuel) r.0
        (b ∷ bs) r.1
      ∙ send_round-Silent (b ∷ bs) w

module _ (p : Pjlib) where
  send_all-Silent :
      (sock : ℕ) (bs : List ℕ) (timeout : ℕ) (w : World) → Silent w (send_all p sock bs timeout w).1
  unfolding send_all
  send_all-Silent sock bs timeout w =
      let tick = record w { history = tick_count ∷ w.history } in
      send_loop-Silent p sock timeout (p.tick_count tick.history) (rounds p bs) bs tick

  write_line-Silent :
      (c : Connection) (line : List ℕ) (w : World) → Silent w (write_line p c line w).1
  unfolding write_line
  write_line-Silent c line w =
      let first = send_all p c.sock line c.write_timeout_msec w in
      let silent = send_all-Silent c.sock line c.write_timeout_msec w in
      elim (Status-cases first.0) [
        | inl e ↦
            rw (e, write_line)
              (send_all-Silent c.sock (newline ∷ []) c.write_timeout_msec first.1 ∙ silent)
        | inr (x, e) ↦ rw e silent
      ]

  pub write_json-said :
      (c : Connection) (v : Value) (size : ℕ) (w : World)
      → said (write_json p c v size w).1.history ≡ v ∷ said w.history
  unfolding write_json
  write_json-said c v size w =
      let u = record w { history = json_write v size ∷ w.history } in
      elim (Result-cases (p.json_write u.history)) [
        | inl (text, e) ↦ rw (e, write_json) (write_line-Silent c (compacted text) u)
        | inr (x, e) ↦ rw (e, write_json) refl
      ]

  pub write_json-Proper :
      (c : Connection) (v : Value) (size : ℕ) (w : World)
      → IsMessage v
      → Proper w
      → Proper (write_json p c v size w).1
  write_json-Proper c v size w m before =
      subst Messages (sym (write_json-said c v size w)) (m, before)
