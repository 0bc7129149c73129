-- ===== src/Server.antt =====
-- src/proto/server.c: the one control connection and the loop that serves it. A memory pool is only
-- asked for, and its release is left out; so are the log lines.
pub mod Input
pub mod Loop
pub mod Connections
pub mod Refusal
pub mod Nonblocking
pub mod Answers
pub mod Said
pub mod Socket
mod Tests
use pjsocky.Dispatch.Line.{dispatch_line}
use pjsocky.Events.{set_conn, envelope, write_response, push}
use pjsocky.Framing.Buffer.{
  max_line, Framing, init, Recv, would_block, Fill, filled, eof, pending, error, room, reclaim,
  fill, Extract, line, incomplete, too_big, extract_line,
}
use pjsocky.Framing.Send.{write_json}
use pjsocky.Json.{Value, Members, end, add_string}
use pjsocky.Pjlib.{Pjlib, Request, o_nonblock, get_flags, set_flags, pool_create, close, recv}
use pjsocky.Version
use pjsocky.World.{World, Connection, M, ◌>>=◌, ◌>>◌, pure, ask, tell}
use pjsocky.Prelude.{
  ◌/◌, ◌%◌, ℤ, pos, negsuc, String, ℕ, zero, suc, ◌+◌, Bool, true, false, not, Option, none, some,
  List, ◌==◌, if◌then◌else◌, length, slice, Status, is_success, failure, success, eeof, etoobig, os,
}

-- conn_state; the connection's pool is left out.
pub record Conn : Type 0 where
  pub active : Bool
  pub sock : ℕ
  pub framing : Framing

abbrev pub connection_of : ℕ → ℕ → Connection
connection_of sock timeout = record { sock = sock; write_timeout_msec = timeout }

-- {"code":..,"message":..}
unfoldable pub build_error_event_data : (code message : String) → Members
build_error_event_data code message = add_string (add_string end "code" code) "message" message

-- flags | O_NONBLOCK
abbrev pub with_nonblock : ℕ → ℕ
with_nonblock flags = if flags / o_nonblock % 2 == 1 then flags else flags + o_nonblock

module _ (p : Pjlib) where
  flags_set : ℤ → M Status
  flags_set (pos n) w = (success, w)
  flags_set (negsuc n) w = (failure (os (p.errno w.history)), w)

  flags_known : ℕ → ℤ → M Status
  unfolding flags_set
  flags_known sock (pos flags) w =
      let r = ask (set_flags sock (with_nonblock flags)) p.set_flags w in flags_set r.0 r.1
  flags_known sock (negsuc n) w = (failure (os (p.errno w.history)), w)

  unfoldable pub set_nonblocking : ℕ → M Status
  unfolding flags_known
  set_nonblocking sock = do flags ← ask (get_flags sock) p.get_flags; flags_known sock flags

  unfoldable pub push_error_event : (code message : String) → World → World
  push_error_event code message w = (push p "error" (build_error_event_data code message) w).1

  unfoldable pub refuse_conn : ℕ → ℕ → World → World
  refuse_conn timeout sock w =
      let pool = ask pool_create p.pool_create w in
      let said =
        if pool.0
        then (write_json p (connection_of sock timeout)
            (envelope "error"
              (build_error_event_data "connection_refused" "another control connection is active"))
            512 (set_nonblocking sock pool.1).1).1
        else pool.1 in
      (tell (close sock) said).1

  -- The connection, once its socket is non-blocking and its pool is there.
  unfoldable pub greet : ℕ → ℕ → Conn → World → Conn × World
  greet timeout sock conn w =
      let v = (set_conn (some (connection_of sock timeout)) w).1 in
      (
        record { active = true; sock = sock; framing = init conn.framing },
        (push p "hello" (Version.fill p end) v).1,
      )

  unfoldable pub open_conn : ℕ → ℕ → Conn → World → Conn × World
  unfolding greet
  open_conn timeout sock conn w =
      let status = set_nonblocking sock w in
      if is_success status.0
      then (let pool = ask pool_create p.pool_create status.1 in
          if pool.0 then greet timeout sock conn pool.1 else (conn, (tell (close sock) pool.1).1))
      else (conn, (tell (close sock) status.1).1)

  unfoldable pub close_conn : Conn → World → Conn × World
  close_conn conn w =
      (record conn { active = false }, (tell (close conn.sock) (set_conn none w).1).1)

  respond : Option Value → M Status
  respond none w =
      (success, push_error_event "bad_request" "not a JSON object with a string \"id\"" w)
  respond (some response) w = write_response p response max_line w

  unfoldable pub handle_line : List ℕ → M Status
  unfolding respond
  handle_line bytes w = let r = dispatch_line p bytes w in respond r.0 r.1

  -- One pass of the loop over the lines; `next` is the passes after it.
  abbrev after_extract :
      (Framing → World → Status × Framing × World)
      → Framing × Extract
      → World
      → Status × Framing × World
  after_extract next (g, incomplete) w = (success, g, w)
  after_extract next (g, too_big) w =
      (failure etoobig, g, push_error_event "bad_request" "line exceeds maximum length" w)
  after_extract next (g, line off n) w =
      let r = handle_line (slice g.buf off n) w in
      elim r.0 [ success ↦ next g r.1 | failure e ↦ (failure e, g, r.1) ]

  -- Each pass consumes a byte at least, so the bytes that wait bound the passes; without fuel the
  -- model stops as if the line were incomplete (Server/Input shows that this does not happen).
  unfoldable pub handle_lines : ℕ → Framing → World → Status × Framing × World
  handle_lines zero f w = (success, f, w)
  handle_lines (suc fuel) f w = after_extract (handle_lines fuel) (extract_line f) w

  -- recv() is called only where there is room.
  unfoldable pub receive : ℕ → Framing → M Recv
  receive sock f w =
      if room (reclaim f) == 0
      then (would_block, w)
      else ask (recv sock (room (reclaim f))) p.recv w

  after_fill : Framing × Fill → World → Status × Framing × World
  unfolding handle_lines
  after_fill (g, pending) w = (success, g, w)
  after_fill (g, eof) w = (failure eeof, g, w)
  after_fill (g, error e) w = (failure (os e), g, w)
  after_fill (g, filled) w = handle_lines (g.len + 1) g w

  unfoldable pub handle_conn_input : ℕ → Framing → World → Status × Framing × World
  unfolding after_fill receive
  handle_conn_input sock f w = let r = receive sock f w in after_fill (fill f r.0) r.1
