-- ===== src/Server/Said.antt =====
-- What serving the control connection says.
use pjsocky.Dispatch.Line.{dispatch_line}
use pjsocky.Dispatch.Line.Said.{IsReply, dispatch_line-Replies}
use pjsocky.Events.{set_conn, envelope}
use pjsocky.Events.Said.{push-Proper, write_response-Proper}
use pjsocky.Framing.Buffer.{
  max_line, Framing, Fill, filled, eof, pending, error, fill, Extract, line, incomplete, too_big,
  extract_line,
}
use pjsocky.Framing.Send.Said.{write_json-Proper}
use pjsocky.Json.{Value, end, add_string, add_member}
use pjsocky.Pjlib.{Pjlib, pool_create}
use pjsocky.Server.Nonblocking.{set_nonblocking-Quiet}
use pjsocky.Protocol.{mem_word}
use pjsocky.Protocol.Message.{error_codes, IsMessage, event}
use pjsocky.Protocol.Said.{Proper, Silent-Proper}
use pjsocky.Server.{
  set_nonblocking, Conn, connection_of, build_error_event_data, push_error_event, refuse_conn,
  greet, open_conn, close_conn, respond, handle_line, after_extract, handle_lines, receive,
  after_fill, handle_conn_input,
}
use pjsocky.Version
use pjsocky.World.{World}
use pjsocky.Prelude.{
  String, ℕ, zero, suc, ◌+◌, ◌≡◌, refl, true, Option, none, some, List, ◌∷◌, arith, if-elim, slice,
  Status, is_success, failure, success,
}

error-IsMessage :
    (code message : String)
    → mem_word code error_codes ≡ true
    → IsMessage (envelope "error" (build_error_event_data code message))
unfolding envelope build_error_event_data add_string add_member
error-IsMessage code message known = event _ _ (rw known refl)

module _ (p : Pjlib) where
  hello-IsMessage : IsMessage (envelope "hello" (Version.fill p end))
  unfolding envelope Version.fill add_string add_member
  hello-IsMessage = event _ _ refl

  push_error_event-Proper :
      (code message : String) (w : World)
      → mem_word code error_codes ≡ true
      → Proper w
      → Proper (push_error_event p code message w)
  unfolding push_error_event
  push_error_event-Proper code message w known before =
      push-Proper p _ _ w (error-IsMessage code message known) before

  pub refuse_conn-Proper :
      (timeout sock : ℕ) (w : World) → Proper w → Proper (refuse_conn p timeout sock w)
  unfolding refuse_conn
  refuse_conn-Proper timeout sock w before =
      let pooled = record w { history = pool_create ∷ w.history } in
      if-elim Proper (p.pool_create (pool_create ∷ w.history))
        (λ e.
          write_json-Proper p (connection_of sock timeout) _ 512 (set_nonblocking p sock pooled).1
            (error-IsMessage _ _ refl)
            (Silent-Proper pooled (set_nonblocking p sock pooled).1
              (set_nonblocking-Quiet p sock pooled).silent before))
        (λ e. before)

  pub open_conn-Proper :
      (timeout sock : ℕ) (conn : Conn) (w : World)
      → Proper w
      → Proper (open_conn p timeout sock conn w).1
  unfolding open_conn greet set_conn
  open_conn-Proper timeout sock conn w before =
      let status = set_nonblocking p sock w in
      let after = Silent-Proper w status.1 (set_nonblocking-Quiet p sock w).silent before in
      if-elim {A = Conn × World} (λ r. Proper r.1) (is_success status.0)
        (λ e.
          if-elim {A = Conn × World} (λ r. Proper r.1)
            (p.pool_create (pool_create ∷ status.1.history))
            (λ pooled. push-Proper p "hello" _ _ hello-IsMessage after) (λ none_left. after))
        (λ e. after)

  pub close_conn-Proper : (conn : Conn) (w : World) → Proper w → Proper (close_conn p conn w).1
  unfolding close_conn set_conn
  close_conn-Proper conn w before = before

  respond-Proper : (r : Option Value) (w : World) → IsReply r → Proper w → Proper (respond p r w).1
  unfolding respond
  respond-Proper none w reply before = push_error_event-Proper _ _ w refl before
  respond-Proper (some v) w reply before = write_response-Proper p v max_line w reply before

  handle_line-Proper : (bytes : List ℕ) (w : World) → Proper w → Proper (handle_line p bytes w).1
  unfolding handle_line
  handle_line-Proper bytes w before =
      let r = dispatch_line p bytes w in
      let (silent, reply) = dispatch_line-Replies p bytes w in
      respond-Proper r.0 r.1 reply (Silent-Proper w r.1 silent before)

  after_response-Proper :
      (g : Framing) (next : World → Status × Framing × World) (s : Status) (u : World)
      → Proper u
      → ((v : World) → Proper v → Proper (next v).2)
      → let r : Status × Framing × World = elim s [
        | success ↦ next u
        | failure e ↦ (failure e, g, u)
      ] in
        Proper r.2
  after_response-Proper g next success u h ih = ih u h
  after_response-Proper g next (failure e) u h ih = h

  after_extract-Proper :
      (next : Framing → World → Status × Framing × World)
      → ((g : Framing) (v : World) → Proper v → Proper (next g v).2)
      → (r : Framing × Extract) (w : World) → Proper w
      → Proper (after_extract p next r w).2
  after_extract-Proper next ih (g, incomplete) w before = before
  after_extract-Proper next ih (g, too_big) w before = push_error_event-Proper _ _ w refl before
  after_extract-Proper next ih (g, line off n) w before =
      let r = handle_line p (slice g.buf off n) w in
      after_response-Proper g (next g) r.0 r.1 (handle_line-Proper _ w before) (ih g)

  handle_lines-Proper :
      (fuel : ℕ) (f : Framing) (w : World) → Proper w → Proper (handle_lines p fuel f w).2
  unfolding handle_lines
  handle_lines-Proper zero f w before = before
  handle_lines-Proper (suc fuel) f w before =
      after_extract-Proper (handle_lines p fuel) (handle_lines-Proper fuel) (extract_line f) w
        before

  after_fill-Proper : (r : Framing × Fill) (w : World) → Proper w → Proper (after_fill p r w).2
  unfolding after_fill
  after_fill-Proper (g, pending) w before = before
  after_fill-Proper (g, eof) w before = before
  after_fill-Proper (g, error e) w before = before
  after_fill-Proper (g, filled) w before = handle_lines-Proper (g.len + 1) g w before

  receive-Proper : (sock : ℕ) (f : Framing) (w : World) → Proper w → Proper (receive p sock f w).1
  unfolding receive
  receive-Proper sock f w before =
      Silent-Proper w (receive p sock f w).1 (unfold receive in ground arith) before

  pub handle_conn_input-Proper :
      (sock : ℕ) (f : Framing) (w : World) → Proper w → Proper (handle_conn_input p sock f w).2
  unfolding handle_conn_input
  handle_conn_input-Proper sock f w before =
      let r = receive p sock f w in
      after_fill-Proper (fill f r.0) r.1 (receive-Proper sock f w before)
