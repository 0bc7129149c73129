-- ===== src/Events/Said.antt =====
-- What a response and an event say.
use pjsocky.Events.{envelope, push_to, push, write_response_to, write_response}
use pjsocky.Framing.Buffer.{max_line}
use pjsocky.Framing.Send.Said.{write_json-said, write_json-Proper}
use pjsocky.Json.{Value, Members}
use pjsocky.Pjlib.{Pjlib, pool_create}
use pjsocky.Protocol.Message.{IsMessage}
use pjsocky.Protocol.Said.{said, Proper}
use pjsocky.World.{World, Connection}
use pjsocky.Prelude.{ap, ◌∙◌, ◌≡◌, true, String, ℕ, inl, inr, Option, none, some, ◌∷◌, Bool-cases}

module _ (p : Pjlib) where
  write_response_to-Proper :
      (c : Option Connection) (v : Value) (size : ℕ) (w : World)
      → IsMessage v
      → Proper w
      → Proper (write_response_to p c v size w).1
  unfolding write_response_to
  write_response_to-Proper none v size w m before = before
  write_response_to-Proper (some c) v size w m before = write_json-Proper p c v size w m before

  pub write_response-Proper :
      (v : Value) (size : ℕ) (w : World)
      → IsMessage v
      → Proper w
      → Proper (write_response p v size w).1
  unfolding write_response
  write_response-Proper v size w m before = write_response_to-Proper w.connection v size w m before

  push_to-Proper :
      (c : Option Connection) (name : String) (ms : Members) (w : World)
      → IsMessage (envelope name ms)
      → Proper w
      → Proper (push_to p c name ms w).1
  unfolding push_to
  push_to-Proper none name ms w m before = before
  push_to-Proper (some c) name ms w m before =
      let v = record w { history = pool_create ∷ w.history } in
      elim (Bool-cases (p.pool_create v.history)) [
        | inl e ↦ rw (e, push_to) (write_json-Proper p c (envelope name ms) max_line v m before)
        | inr e ↦ rw (e, push_to) before
      ]

  pub push-Proper :
      (name : String) (ms : Members) (w : World)
      → IsMessage (envelope name ms)
      → Proper w
      → Proper (push p name ms w).1
  unfolding push
  push-Proper name ms w m before = push_to-Proper w.connection name ms w m before

  -- With a client, a response is said, and so is an event if there is a pool for it.
  pub write_response-said :
      (v : Value) (size : ℕ) (w : World) (c : Connection)
      → w.connection ≡ some c
      → said (write_response p v size w).1.history ≡ v ∷ said w.history
  unfolding write_response write_response_to
  write_response-said v size w c on =
      ap (λ o. said (write_response_to p o v size w).1.history) on ∙ write_json-said p c v size w

  pub push-said :
      (name : String) (ms : Members) (w : World) (c : Connection)
      → w.connection ≡ some c
      → p.pool_create (pool_create ∷ w.history) ≡ true
      → said (push p name ms w).1.history ≡ envelope name ms ∷ said w.history
  unfolding push push_to
  push-said name ms w c on pooled =
      let v = record w { history = pool_create ∷ w.history } in
      ap (λ o. said (push_to p o name ms w).1.history) on
      ∙ rw (pooled, push_to) (write_json-said p c (envelope name ms) max_line v)
