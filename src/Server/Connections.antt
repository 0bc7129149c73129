-- ===== src/Server/Connections.antt =====
-- What serving a read event, or turning a client away, leaves alone: the timers and the connection that
-- events.c writes to.
use pjsocky.Events.Push.{write_json-SameState, push-SameState, write_response-SameState}
use pjsocky.Pjlib.{pool_create, Pjlib}
use pjsocky.Server.Nonblocking.{set_nonblocking-Quiet}
use pjsocky.Server.{
  connection_of, set_nonblocking, refuse_conn, push_error_event, respond, handle_line,
  after_extract, handle_lines, receive, after_fill, handle_conn_input,
}
use pjsocky.Dispatch.Line.{dispatch_line}
use pjsocky.Dispatch.Frame.{Frame, Frame-trans, SameState-Frame}
use pjsocky.Dispatch.Line.Keeps.{dispatch_line-Frame}
use pjsocky.Events.{push}
use pjsocky.Framing.Buffer.{
  Framing, max_line, Extract, line, incomplete, too_big, extract_line, Fill, filled, eof, pending,
  error, fill,
}
use pjsocky.Json.{Value, Members}
use pjsocky.World.{World}
use pjsocky.Prelude.{
  ◌∙◌, ◌∷◌, if-elim, String, ℕ, zero, suc, ◌+◌, ◌≡◌, refl, ap, Option, none, some, List, arith,
  slice, Status, failure, success,
}

abbrev pub SameConn : World → World → Type 0
SameConn w v = v.connection ≡ w.connection

module _ (p : Pjlib) where
  pub push-Frame :
      (name : String) (members : Members) (w : World) → Frame w (push p name members w).1
  push-Frame name members w = SameState-Frame w _ (push-SameState p name members w)

  push_error_event-Frame :
      (code message : String) (w : World) → Frame w (push_error_event p code message w)
  unfolding push_error_event
  push_error_event-Frame code message w = push-Frame _ _ w

  respond-Frame : (r : Option Value) (w : World) → Frame w (respond p r w).1
  unfolding respond
  respond-Frame none w = push_error_event-Frame _ _ w
  respond-Frame (some v) w = SameState-Frame w _ (write_response-SameState p v max_line w)

  handle_line-Frame : (bytes : List ℕ) (w : World) → Frame w (handle_line p bytes w).1
  unfolding handle_line
  handle_line-Frame bytes w =
      let r = dispatch_line p bytes w in
      Frame-trans w r.1 _ (dispatch_line-Frame p bytes w) (respond-Frame r.0 r.1)

  after_response-Frame :
      (g : Framing) (next : World → Status × Framing × World) (s : Status) (w u : World)
      → Frame w u
      → ((v : World) → Frame v (next v).2)
      → let r : Status × Framing × World = elim s [
        | success ↦ next u
        | failure e ↦ (failure e, g, u)
      ] in
        Frame w r.2
  after_response-Frame g next success w u h ih = Frame-trans w u _ h (ih u)
  after_response-Frame g next (failure e) w u h ih = h

  after_extract-Frame :
      (next : Framing → World → Status × Framing × World)
      → ((g : Framing) (v : World) → Frame v (next g v).2)
      → (r : Framing × Extract) (w : World) → Frame w (after_extract p next r w).2
  after_extract-Frame next ih (g, incomplete) w = refl
  after_extract-Frame next ih (g, too_big) w = push_error_event-Frame _ _ w
  after_extract-Frame next ih (g, line off n) w =
      let r = handle_line p (slice g.buf off n) w in
      after_response-Frame g (next g) r.0 w r.1 (handle_line-Frame _ w) (ih g)

  handle_lines-Frame : (fuel : ℕ) (f : Framing) (w : World) → Frame w (handle_lines p fuel f w).2
  unfolding handle_lines
  handle_lines-Frame zero f w = refl
  handle_lines-Frame (suc fuel) f w =
      after_extract-Frame (handle_lines p fuel) (handle_lines-Frame fuel) (extract_line f) w

  after_fill-Frame : (r : Framing × Fill) (w : World) → Frame w (after_fill p r w).2
  unfolding after_fill
  after_fill-Frame (g, pending) w = refl
  after_fill-Frame (g, eof) w = refl
  after_fill-Frame (g, error e) w = refl
  after_fill-Frame (g, filled) w = handle_lines-Frame (g.len + 1) g w

  receive-Frame : (sock : ℕ) (f : Framing) (w : World) → Frame w (receive p sock f w).1
  unfolding receive
  receive-Frame sock f w = ground arith

  pub handle_conn_input-Frame :
      (sock : ℕ) (f : Framing) (w : World) → Frame w (handle_conn_input p sock f w).2
  unfolding handle_conn_input
  handle_conn_input-Frame sock f w =
      let r = receive p sock f w in
      Frame-trans w r.1 _ (receive-Frame sock f w) (after_fill-Frame (fill f r.0) r.1)

  pub push-SameConn :
      (name : String) (members : Members) (w : World) → SameConn w (push p name members w).1
  push-SameConn name members w = ap {A = World} (λ x. x.connection) (push-Frame name members w)

  pub handle_conn_input-SameConn :
      (sock : ℕ) (f : Framing) (w : World) → SameConn w (handle_conn_input p sock f w).2
  handle_conn_input-SameConn sock f w =
      ap {A = World} (λ x. x.connection) (handle_conn_input-Frame sock f w)

pub set_nonblocking-SameConn :
    (p : Pjlib) (sock : ℕ) (w : World) → SameConn w (set_nonblocking p sock w).1
set_nonblocking-SameConn p sock w =
    ap {A = World} (λ x. x.connection) (set_nonblocking-Quiet p sock w).same

pub refuse_conn-SameConn :
    (p : Pjlib) (timeout sock : ℕ) (w : World) → SameConn w (refuse_conn p timeout sock w)
unfolding refuse_conn
refuse_conn-SameConn p timeout sock w =
    let pooled = record w { history = pool_create ∷ w.history } in
    if-elim (SameConn w) (p.pool_create (pool_create ∷ w.history))
      (λ e.
        ap {A = World} (λ x. x.connection)
          (write_json-SameState p (connection_of sock timeout) _ 512
            (set_nonblocking p sock pooled).1)
        ∙ set_nonblocking-SameConn p sock pooled)
      (λ e. refl)
