-- ===== src/Server/Loop.antt =====
-- src/proto/server.c: pjsocky_server_run. What select() and accept() answer in one turn of the loop is
-- an argument, and a run is a list of turns.
pub mod Client
use pjsocky.Framing.Buffer.{Framing, init}
use pjsocky.Server.{Conn, refuse_conn, open_conn, close_conn, handle_conn_input}
use pjsocky.Pjlib.{Pjlib}
use pjsocky.World.{World}
use pjsocky.Prelude.{
  ℕ, Bool, true, ◌&&◌, Option, none, some, List, [], ◌∷◌, if◌then◌else◌, Error, Status, is_success,
  failure, success,
}

pub data Accept : Type 0 where
  no_client : Accept
  client : ℕ → Accept
  accept_failed : Error → Accept

pub data Turn : Type 0 where
  -- select() timed out or was interrupted by a signal
  quiet : Turn
  select_failed : Error → Turn
  -- whether the connection is readable, and what the listening socket has
  ready : Bool → Accept → Turn
  -- pjsocky_server_stop() from the signal handler
  stop_signal : Turn

pub record Server : Type 0 where
  pub write_timeout_msec : ℕ
  pub stop_requested : Bool
  pub conn : Conn
  pub world : World
  -- the status that pjsocky_server_run() returned, once it has
  pub returned : Option Status

module _ (p : Pjlib) where
  abbrev pub with_conn : Server → Conn × World → Server
  with_conn s r = record s { conn = r.0; world = r.1 }

  unfoldable pub drop_conn : Server → Server
  drop_conn s = if s.conn.active then with_conn s (close_conn p s.conn s.world) else s

  unfoldable pub after_input : Server → Status × Framing × World → Server
  unfolding drop_conn
  after_input s (status, f, w) =
      let t = record s { conn = record (s.conn) { framing = f }; world = w } in
      if is_success status then t else with_conn t (close_conn p t.conn t.world)

  unfoldable pub serve_conn : Bool → Server → Server
  unfolding after_input
  serve_conn readable s =
      if s.conn.active && readable
      then after_input s (handle_conn_input p s.conn.sock s.conn.framing s.world)
      else s

  unfoldable pub serve_listener : Accept → Server → Server
  unfolding drop_conn
  serve_listener no_client s = s
  serve_listener (client sock) s =
      if s.conn.active
      then record s { world = refuse_conn p s.write_timeout_msec sock s.world }
      else with_conn s (open_conn p s.write_timeout_msec sock s.conn s.world)
  serve_listener (accept_failed e) s = record (drop_conn s) { returned = some (failure e) }

  unfoldable pub turn_running : Turn → Server → Server
  unfolding drop_conn serve_conn serve_listener
  turn_running quiet s = s
  turn_running (select_failed e) s = record (drop_conn s) { returned = some (failure e) }
  turn_running (ready readable arrival) s = serve_listener arrival (serve_conn readable s)
  turn_running stop_signal s = record s { stop_requested = true }

  -- One turn: the test of `stop_requested`, then select() and what follows.
  unfoldable pub turn_checked : Turn → Server → Server
  unfolding turn_running
  turn_checked t s =
      if s.stop_requested
      then record (drop_conn s) { returned = some success }
      else turn_running t s

  unfoldable pub turn_of : Option Status → Turn → Server → Server
  unfolding turn_checked
  turn_of (some status) t s = s
  turn_of none t s = turn_checked t s

  unfoldable pub turn : Turn → Server → Server
  unfolding turn_of
  turn t s = turn_of s.returned t s

  unfoldable pub run : List Turn → Server → Server
  unfolding turn
  run [] s = s
  run (t ∷ ts) s = run ts (turn t s)
