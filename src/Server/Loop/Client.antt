-- ===== src/Server/Loop/Client.antt =====
-- The control connection: what events.c writes to is the connection that the server serves, in every
-- state of its loop.
use pjsocky.Events.{set_conn}
use pjsocky.Framing.Buffer.{Framing, init, max_line}
use pjsocky.Framing.Buffer.Step.{IsValid}
use pjsocky.Pjlib.{Pjlib, pool_create}
use pjsocky.Server.{set_nonblocking, connection_of, greet, open_conn, close_conn, handle_conn_input}
use pjsocky.Server.Connections.{
  SameConn, set_nonblocking-SameConn, refuse_conn-SameConn, push-SameConn,
  handle_conn_input-SameConn,
}
use pjsocky.Server.Input.{RecvFits, handle_conn_input-IsValid}
use pjsocky.Server.Loop.{
  Accept, no_client, client, accept_failed, Turn, quiet, select_failed, ready, stop_signal, Server,
  with_conn, drop_conn, after_input, serve_conn, serve_listener, turn_running, turn_checked,
  turn_of, turn,
}
use pjsocky.World.{World}
use pjsocky.Prelude.{
  ℕ, ◌+◌, ◌≡◌, refl, ◌∙◌, inl, inr, Bool, true, false, ◌&&◌, Option, none, some, ◌∷◌, arith,
  Bool-cases, if-elim, length, Status, is_success, failure, success,
}

-- Where there is a client, events go to its socket, and its buffer is well-formed; where there is none,
-- they go nowhere. Once the loop has returned, there is none.
pub record Linked (s : Server) : Type 0 where
  pub served :
      s.conn.active ≡ true
      → (s.world.connection ≡ some (connection_of s.conn.sock s.write_timeout_msec))
        × IsValid s.conn.framing
  pub alone : s.conn.active ≡ false → s.world.connection ≡ none
  pub sized : length s.conn.framing.buf ≡ max_line + 1
  pub over : (status : Status) → s.returned ≡ some status → s.conn.active ≡ false

init-IsValid : (f : Framing) → length f.buf ≡ max_line + 1 → IsValid (init f)
unfolding init
init-IsValid f sized = record { within = omega arith; sized = sized }

pub Linked-world :
    (s : Server) (v : World)
    → Linked s
    → v.connection ≡ s.world.connection
    → Linked (record s { world = v })
Linked-world s v linked e = record {
  served = λ on. (e ∙ (linked.served on).0, (linked.served on).1);
  alone = λ off. e ∙ linked.alone off;
  sized = linked.sized;
  over = linked.over;
}

module _ (p : Pjlib) where
  closed-Linked :
      (s : Server)
      → length s.conn.framing.buf ≡ max_line + 1
      → Linked (with_conn p s (close_conn p s.conn s.world))
  unfolding close_conn set_conn
  closed-Linked s sized = record {
    served = λ on. cc;
    alone = λ off. refl;
    sized = sized;
    over = λ status e. refl;
  }

  gone-Linked :
      (s : Server) (r : Option Status) → Linked s → Linked (record (drop_conn p s) { returned = r })
  unfolding drop_conn close_conn set_conn
  gone-Linked s r linked =
      if-elim (λ x. Linked (record x { returned = r })) s.conn.active
        (λ e. record {
          served = λ on. cc;
          alone = λ off. refl;
          sized = linked.sized;
          over = λ status e. refl;
        })
        (λ e. record {
          served = λ on. cc;
          alone = λ off. linked.alone e;
          sized = linked.sized;
          over = λ status e'. e;
        })

  after_input-Linked :
      (s : Server) (r : Status × Framing × World)
      → Linked s
      → s.conn.active ≡ true
      → SameConn s.world r.2
      → IsValid r.1
      → Linked (after_input p s r)
  unfolding after_input
  after_input-Linked s (success, f, w) linked on same valid = record {
    served = λ h. (same ∙ (linked.served on).0, valid);
    alone = λ off. cc;
    sized = valid.sized;
    over = linked.over;
  }
  after_input-Linked s (failure e, f, w) linked on same valid =
      closed-Linked (record s { conn = record (s.conn) { framing = f }; world = w }) valid.sized

  serve_conn-Linked :
      (readable : Bool) (s : Server) → RecvFits p → Linked s → Linked (serve_conn p readable s)
  unfolding serve_conn
  serve_conn-Linked readable s fits linked = elim (Bool-cases (s.conn.active && readable)) [
    | inl e ↦ rw e (
        let on : s.conn.active ≡ true = ground (arith, e) in
        after_input-Linked s (handle_conn_input p s.conn.sock s.conn.framing s.world) linked on
          (handle_conn_input-SameConn p s.conn.sock s.conn.framing s.world)
          (handle_conn_input-IsValid p s.conn.sock s.conn.framing s.world (linked.served on).1
            fits))
    | inr e ↦ rw e linked
  ]

  -- A connection that is accepted while there is none.
  opened-Linked :
      (s : Server) (sock : ℕ)
      → Linked s
      → s.conn.active ≡ false
      → s.returned ≡ none
      → Linked (with_conn p s (open_conn p s.write_timeout_msec sock s.conn s.world))
  unfolding open_conn greet set_conn
  opened-Linked s sock linked off running =
      let status = set_nonblocking p sock s.world in
      let same = set_nonblocking-SameConn p sock s.world in
      if-elim (λ r. Linked (with_conn p s r)) (is_success status.0)
        (λ set.
          if-elim (λ r. Linked (with_conn p s r)) (p.pool_create (pool_create ∷ status.1.history))
            (λ pooled. record {
              served =
                  λ on. (push-SameConn p "hello" _ _, init-IsValid s.conn.framing linked.sized);
              alone = λ off. cc;
              sized = (init-IsValid s.conn.framing linked.sized).sized;
              over = λ status h. cc;
            })
            (λ none_left. Linked-world s _ linked same))
        (λ failed. Linked-world s _ linked same)

  serve_listener-Linked :
      (a : Accept) (s : Server) → s.returned ≡ none → Linked s → Linked (serve_listener p a s)
  unfolding serve_listener
  serve_listener-Linked no_client s running linked = linked
  serve_listener-Linked (client sock) s running linked =
      if-elim Linked s.conn.active
        (λ e. record {
          served = λ on. (
            refuse_conn-SameConn p s.write_timeout_msec sock s.world ∙ (linked.served e).0,
            (linked.served e).1,
          );
          alone = λ off. cc;
          sized = linked.sized;
          over = linked.over;
        })
        (λ e. opened-Linked s sock linked e running)
  serve_listener-Linked (accept_failed x) s running linked = gone-Linked s (some (failure x)) linked

  serve_conn-running :
      (readable : Bool) (s : Server) → s.returned ≡ none → (serve_conn p readable s).returned ≡ none
  unfolding serve_conn after_input
  serve_conn-running readable s running =
      if-elim {A = Server} (λ x. x.returned ≡ none) (s.conn.active && readable)
        (λ e.
          if-elim {A = Server} (λ x. x.returned ≡ none)
            (is_success (handle_conn_input p s.conn.sock s.conn.framing s.world).0) (λ h. running)
            (λ h. running))
        (λ e. running)

  turn_running-Linked :
      (t : Turn) (s : Server)
      → RecvFits p
      → s.returned ≡ none
      → Linked s
      → Linked (turn_running p t s)
  unfolding turn_running
  turn_running-Linked quiet s fits running linked = linked
  turn_running-Linked (select_failed x) s fits running linked =
      gone-Linked s (some (failure x)) linked
  turn_running-Linked (ready readable a) s fits running linked =
      serve_listener-Linked a (serve_conn p readable s) (serve_conn-running readable s running)
        (serve_conn-Linked readable s fits linked)
  turn_running-Linked stop_signal s fits running linked = record {
    served = linked.served;
    alone = linked.alone;
    sized = linked.sized;
    over = linked.over;
  }

  turn_checked-Linked :
      (t : Turn) (s : Server)
      → RecvFits p
      → s.returned ≡ none
      → Linked s
      → Linked (turn_checked p t s)
  unfolding turn_checked
  turn_checked-Linked t s fits running linked =
      if-elim Linked s.stop_requested (λ e. gone-Linked s (some success) linked)
        (λ e. turn_running-Linked t s fits running linked)

  turn_of-Linked :
      (r : Option Status) (t : Turn) (s : Server)
      → s.returned ≡ r
      → RecvFits p
      → Linked s
      → Linked (turn_of p r t s)
  unfolding turn_of
  turn_of-Linked none t s e fits linked = turn_checked-Linked t s fits e linked
  turn_of-Linked (some status) t s e fits linked = linked

  pub turn-Linked : (t : Turn) (s : Server) → RecvFits p → Linked s → Linked (turn p t s)
  unfolding turn
  turn-Linked t s fits linked = turn_of-Linked s.returned t s refl fits linked
