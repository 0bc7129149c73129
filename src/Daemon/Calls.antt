-- ===== src/Daemon/Calls.antt =====
-- A turn of the server leaves the video watchdog and what it has seen alone.
use pjsocky.Events.Push.{push-SameState, write_json-SameState}
use pjsocky.Events.{set_conn}
use pjsocky.Pjlib.{Pjlib, pool_create}
use pjsocky.Server.Nonblocking.{set_nonblocking-Quiet}
use pjsocky.Server.Connections.{handle_conn_input-Frame}
use pjsocky.Server.Loop.{
  Accept, no_client, client, accept_failed, Turn, quiet, select_failed, ready, stop_signal, Server,
  drop_conn, serve_conn, serve_listener, turn_running, turn_checked, turn_of, after_input, turn,
}
use pjsocky.Server.{
  set_nonblocking, Conn, connection_of, refuse_conn, greet, open_conn, close_conn,
  handle_conn_input,
}
use pjsocky.World.{World, Timer}
use pjsocky.Prelude.{
  ℕ, ◌≡◌, refl, ap, ◌∙◌, Bool, ◌&&◌, Option, none, some, ◌∷◌, if-elim, ℤ, Status, is_success,
}

-- What the watchdog goes by.
abbrev pub watched : World → Timer × ℕ × ℕ × ℤ
watched w = (w.watchdog, w.video_stall_ticks, w.video_tx_packets_seen, w.video_failed_call_id)

abbrev Same : World → World → Type 0
Same w v = watched v ≡ watched w

module _ (p : Pjlib) where
  set_nonblocking-Same : (sock : ℕ) (w : World) → Same w (set_nonblocking p sock w).1
  set_nonblocking-Same sock w = ap watched (set_nonblocking-Quiet p sock w).same

  refuse_conn-Same : (timeout sock : ℕ) (w : World) → Same w (refuse_conn p timeout sock w)
  unfolding refuse_conn
  refuse_conn-Same timeout sock w =
      let pooled = record w { history = pool_create ∷ w.history } in
      if-elim (Same w) (p.pool_create (pool_create ∷ w.history))
        (λ e.
          ap watched (
            write_json-SameState p (connection_of sock timeout) _ 512
              (set_nonblocking p sock pooled).1)
          ∙ set_nonblocking-Same sock pooled)
        (λ e. refl)

  open_conn-Same :
      (timeout sock : ℕ) (conn : Conn) (w : World) → Same w (open_conn p timeout sock conn w).1
  unfolding open_conn greet set_conn
  open_conn-Same timeout sock conn w =
      let status = set_nonblocking p sock w in
      let same = set_nonblocking-Same sock w in
      if-elim {A = Conn × World} (λ r. Same w r.1) (is_success status.0)
        (λ e.
          if-elim {A = Conn × World} (λ r. Same w r.1)
            (p.pool_create (pool_create ∷ status.1.history))
            (λ pooled. ap watched (push-SameState p "hello" _ _) ∙ same) (λ none_left. same))
        (λ e. same)

  drop_conn-Same : (s : Server) → Same s.world (drop_conn p s).world
  unfolding drop_conn close_conn set_conn
  drop_conn-Same s =
      if-elim {A = Server} (λ x. Same s.world x.world) s.conn.active (λ e. refl) (λ e. refl)

  serve_conn-Same : (readable : Bool) (s : Server) → Same s.world (serve_conn p readable s).world
  unfolding serve_conn after_input close_conn set_conn
  serve_conn-Same readable s =
      let r = handle_conn_input p s.conn.sock s.conn.framing s.world in
      let e = ap watched (handle_conn_input-Frame p s.conn.sock s.conn.framing s.world) in
      if-elim {A = Server} (λ x. Same s.world x.world) (s.conn.active && readable)
        (λ on.
          if-elim {A = Server} (λ x. Same s.world x.world) (is_success r.0) (λ good. e) (λ bad. e))
        (λ off. refl)

  serve_listener-Same : (a : Accept) (s : Server) → Same s.world (serve_listener p a s).world
  unfolding serve_listener
  serve_listener-Same no_client s = refl
  serve_listener-Same (client sock) s =
      if-elim {A = Server} (λ x. Same s.world x.world) s.conn.active
        (λ e. refuse_conn-Same s.write_timeout_msec sock s.world)
        (λ e. open_conn-Same s.write_timeout_msec sock s.conn s.world)
  serve_listener-Same (accept_failed e) s = drop_conn-Same s

  turn_running-Same : (t : Turn) (s : Server) → Same s.world (turn_running p t s).world
  unfolding turn_running
  turn_running-Same quiet s = refl
  turn_running-Same (select_failed e) s = drop_conn-Same s
  turn_running-Same (ready readable a) s =
      serve_listener-Same a (serve_conn p readable s) ∙ serve_conn-Same readable s
  turn_running-Same stop_signal s = refl

  turn_of-Same : (r : Option Status) (t : Turn) (s : Server) → Same s.world (turn_of p r t s).world
  unfolding turn_of turn_checked
  turn_of-Same (some status) t s = refl
  turn_of-Same none t s =
      if-elim {A = Server} (λ x. Same s.world x.world) s.stop_requested (λ e. drop_conn-Same s)
        (λ e. turn_running-Same t s)

  pub turn-Same : (t : Turn) (s : Server) → watched (turn p t s).world ≡ watched s.world
  unfolding turn
  turn-Same t s = turn_of-Same s.returned t s
