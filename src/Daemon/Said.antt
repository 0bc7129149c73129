-- ===== src/Daemon/Said.antt =====
-- What the daemon says, over turns of the server, callbacks and timers.
use pjsocky.Account.Said.{on_reg_state2-Proper}
use pjsocky.Call.Callbacks.Said.{Step-Proper}
use pjsocky.Daemon.{
  Happens, server_turn, call_step, registration, message, message_status, typing_indication,
  Reaches, here, then_step,
}
use pjsocky.Im.Said.{on_pager2-Proper, on_pager_status2-Proper, on_typing2-Proper}
use pjsocky.Pjlib.{Pjlib}
use pjsocky.Protocol.Said.{Proper}
use pjsocky.Server.{handle_conn_input}
use pjsocky.Server.Said.{
  refuse_conn-Proper, open_conn-Proper, close_conn-Proper, handle_conn_input-Proper,
}
use pjsocky.Server.Loop.{
  Accept, no_client, client, accept_failed, Turn, quiet, select_failed, ready, stop_signal, Server,
  drop_conn, after_input, serve_conn, serve_listener, turn_running, turn_checked, turn_of, turn,
}
use pjsocky.Prelude.{Bool, ◌&&◌, Option, none, some, if-elim, Status, is_success}

abbrev ProperServer : Server → Type 0
ProperServer s = Proper s.world

module _ (p : Pjlib) where
  drop_conn-Proper : (s : Server) → Proper s.world → Proper (drop_conn p s).world
  unfolding drop_conn
  drop_conn-Proper s before =
      if-elim ProperServer s.conn.active (λ e. close_conn-Proper p s.conn s.world before)
        (λ e. before)

  serve_conn-Proper :
      (readable : Bool) (s : Server) → Proper s.world → Proper (serve_conn p readable s).world
  unfolding serve_conn after_input
  serve_conn-Proper readable s before =
      let r = handle_conn_input p s.conn.sock s.conn.framing s.world in
      let after = handle_conn_input-Proper p s.conn.sock s.conn.framing s.world before in
      if-elim ProperServer (s.conn.active && readable)
        (λ on.
          if-elim ProperServer (is_success r.0) (λ good. after)
            (λ bad. close_conn-Proper p (record (s.conn) { framing = r.1 }) r.2 after))
        (λ off. before)

  serve_listener-Proper :
      (a : Accept) (s : Server) → Proper s.world → Proper (serve_listener p a s).world
  unfolding serve_listener
  serve_listener-Proper no_client s before = before
  serve_listener-Proper (client sock) s before =
      if-elim ProperServer s.conn.active
        (λ e. refuse_conn-Proper p s.write_timeout_msec sock s.world before)
        (λ e. open_conn-Proper p s.write_timeout_msec sock s.conn s.world before)
  serve_listener-Proper (accept_failed e) s before = drop_conn-Proper s before

  turn_running-Proper : (t : Turn) (s : Server) → Proper s.world → Proper (turn_running p t s).world
  unfolding turn_running
  turn_running-Proper quiet s before = before
  turn_running-Proper (select_failed e) s before = drop_conn-Proper s before
  turn_running-Proper (ready readable a) s before =
      serve_listener-Proper a (serve_conn p readable s) (serve_conn-Proper readable s before)
  turn_running-Proper stop_signal s before = before

  turn_of-Proper :
      (r : Option Status) (t : Turn) (s : Server) → Proper s.world → Proper (turn_of p r t s).world
  unfolding turn_of turn_checked
  turn_of-Proper (some status) t s before = before
  turn_of-Proper none t s before =
      if-elim ProperServer s.stop_requested (λ e. drop_conn-Proper s before)
        (λ e. turn_running-Proper t s before)

  Happens-Proper : (s t : Server) → Happens p s t → Proper s.world → Proper t.world
  unfolding turn
  Happens-Proper s _ (server_turn t _) before = turn_of-Proper s.returned t s before
  Happens-Proper s _ (call_step _ v h) before = Step-Proper p s.world v h before
  Happens-Proper s _ (registration acc_id renew _) before =
      on_reg_state2-Proper p acc_id renew s.world before
  Happens-Proper s _ (message from to mime_type body _) before =
      on_pager2-Proper p s.world before from to mime_type body
  Happens-Proper s _ (message_status to body status reason _) before =
      on_pager_status2-Proper p s.world before to body status reason
  Happens-Proper s _ (typing_indication from to is_typing _) before =
      on_typing2-Proper p s.world before from to is_typing

-- However turns of the server, with any bytes from any clients in them, callbacks and timers follow one
-- another: every value that the daemon gives to pj_json_write() is a message of docs/PROTOCOL.md, that
-- is, an event with the fields that its name has there, a response whose result has the fields of
-- a command, or an error response with a code of the table and a message. The condition is that this was
-- so before.
pub Reaches-Proper : (p : Pjlib) (s t : Server) → Reaches p s t → Proper s.world → Proper t.world
Reaches-Proper p s _ here before = before
Reaches-Proper p s t (then_step r h) before = Happens-Proper p _ t h (Reaches-Proper p s _ r before)
