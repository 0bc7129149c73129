-- ===== src/Events/Push.antt =====
-- What a response or an event does to the connection and to everything else.
use pjsocky.Events.{envelope, write_response_to, write_response, push_to, push}
use pjsocky.Framing.Buffer.{max_line, newline, find_newline}
use pjsocky.Framing.Send.{compacted, write_json}
use pjsocky.World.Same.{SameState}
use pjsocky.Framing.Send.Wire.{write_line-Delivers, nothing_Delivers, after_silence}
use pjsocky.Framing.Send.Peer.{accepted}
use pjsocky.Framing.Send.Line.{JsonPrints, WritesLine, write_json-WritesLine}
use pjsocky.Json.{Value, Members}
use pjsocky.Pjlib.{Pjlib, pool_create, json_write}
use pjsocky.World.{World, Connection}
use pjsocky.Prelude.{
  String, ℕ, ◌≡◌, refl, inl, inr, false, Option, none, some, [], ◌∷◌, ◌++◌, Bool-cases, Status,
  Result-cases, success,
}

-- With no client nothing is done at all; with one, its socket gets one line.
pub Writes : Pjlib → Option Connection → World → Status × World → Type 0
Writes p none w r = r ≡ (success, w)
Writes p (some c) w r = WritesLine p c w r

write_response_to-Writes :
    (p : Pjlib) (c : Option Connection) (response : Value) (size : ℕ) (w : World)
    → JsonPrints p
    → Writes p c w (write_response_to p c response size w)
unfolding write_response_to Writes
write_response_to-Writes p none response size w prints = refl
write_response_to-Writes p (some c) response size w prints =
    write_json-WritesLine p c response size w prints

-- A response goes to the client as one line, or as a prefix of one if the write fails; without a
-- client it is dropped, and the call succeeds.
write_response-Writes :
    (p : Pjlib) (response : Value) (size : ℕ) (w : World)
    → JsonPrints p
    → Writes p w.connection w (write_response p response size w)
unfolding write_response
write_response-Writes p response size w prints =
    write_response_to-Writes p w.connection response size w prints

push_to-Writes :
    (p : Pjlib) (c : Option Connection) (name : String) (members : Members) (w : World)
    → JsonPrints p
    → Writes p c w (push_to p c name members w)
unfolding push_to Writes accepted
push_to-Writes p none name members w prints = refl
push_to-Writes p (some c) name members w prints =
    let v = record w { history = pool_create ∷ w.history } in
    elim (Bool-cases (p.pool_create v.history)) [
      | inl e ↦
          let (line, one, d) =
            write_json-WritesLine p c (envelope name members) max_line v prints in
          rw (e, push_to)
            (
              line,
              one,
              after_silence p c.sock pool_create (line ++ newline ∷ []) w _ _ (λ other. refl) d,
            )
      | inr e ↦
          rw (e, push_to)
            (
              [],
              unfold find_newline in refl,
              after_silence p c.sock pool_create (newline ∷ []) w v false (λ other. refl)
                  (nothing_Delivers p c.sock (newline ∷ []) v),
            )
    ]

-- An event is one line to the client, or a prefix of one if the push fails; without a client it is
-- dropped, and the push succeeds. Nothing but the history changes.
pub push-Writes :
    (p : Pjlib) (name : String) (members : Members) (w : World)
    → JsonPrints p
    → Writes p w.connection w (push p name members w)
unfolding push
push-Writes p name members w prints = push_to-Writes p w.connection name members w prints

pub write_json-SameState :
    (p : Pjlib) (c : Connection) (v : Value) (size : ℕ) (w : World)
    → SameState w (write_json p c v size w).1
unfolding write_json
write_json-SameState p c v size w =
    elim (Result-cases (p.json_write (json_write v size ∷ w.history))) [
      | inl (text, e) ↦
          rw (e, write_json)
            (write_line-Delivers p c (compacted text)
              (record w { history = json_write v size ∷ w.history })).same
      | inr (x, e) ↦ rw (e, write_json) refl
    ]

push_to-SameState :
    (p : Pjlib) (c : Option Connection) (name : String) (members : Members) (w : World)
    → SameState w (push_to p c name members w).1
unfolding push_to
push_to-SameState p none name members w = refl
push_to-SameState p (some c) name members w =
    elim (Bool-cases (p.pool_create (pool_create ∷ w.history))) [
      | inl e ↦
          rw (e, push_to)
            (write_json-SameState p c (envelope name members) max_line
              (record w { history = pool_create ∷ w.history }))
      | inr e ↦ rw (e, push_to) refl
    ]

-- An event changes the history alone.
pub push-SameState :
    (p : Pjlib) (name : String) (members : Members) (w : World)
    → SameState w (push p name members w).1
unfolding push
push-SameState p name members w = push_to-SameState p w.connection name members w

write_response_to-SameState :
    (p : Pjlib) (c : Option Connection) (v : Value) (size : ℕ) (w : World)
    → SameState w (write_response_to p c v size w).1
unfolding write_response_to
write_response_to-SameState p none v size w = refl
write_response_to-SameState p (some c) v size w = write_json-SameState p c v size w

pub write_response-SameState :
    (p : Pjlib) (v : Value) (size : ℕ) (w : World) → SameState w (write_response p v size w).1
unfolding write_response
write_response-SameState p v size w = write_response_to-SameState p w.connection v size w
