-- ===== src/Server/Refusal.antt =====
-- A second client.
use pjsocky.Framing.Send.{write_json}
use pjsocky.Framing.Send.Line.{JsonPrints, write_json-WritesLine}
use pjsocky.Framing.Send.Peer.{accepted, wire}
use pjsocky.World.Same.{SameState, SameState-trans}
use pjsocky.Server.Nonblocking.{set_nonblocking-Quiet}
use pjsocky.Pjlib.{Pjlib, pool_create, close, latest}
use pjsocky.Json.{Value}
use pjsocky.Server.{connection_of, set_nonblocking, refuse_conn}
use pjsocky.World.{World, tell}
use pjsocky.Prelude.{ℕ, ◌≡◌, refl, ap, ◌∙◌, false, some, ◌∷◌, append-nil, ◌==◌, if-elim}

-- What is done to a socket that is turned away: it is closed last, no other socket is sent
-- anything, and the state is the same.
abbrev pub TurnsAway : Pjlib → ℕ → World → World → Type 0
TurnsAway p sock w v =
    SameState w v
    × (latest v.history ≡ some (close sock))
    × ((other : ℕ) → (sock == other) ≡ false → wire p other v.history ≡ wire p other w.history)

abbrev Untouched : Pjlib → ℕ → World → World → Type 0
Untouched p sock w v =
    SameState w v
    × ((other : ℕ) → (sock == other) ≡ false → wire p other v.history ≡ wire p other w.history)

module _ (p : Pjlib) (timeout sock : ℕ) (w : World) where
  closed-TurnsAway : (v : World) → Untouched p sock w v → TurnsAway p sock w (tell (close sock) v).1
  unfolding wire accepted
  closed-TurnsAway v (same, others) = (
    ap {B = World} (λ x. record x { history = close sock ∷ v.history }) same,
    refl,
    λ other apart. append-nil (wire p other v.history) ∙ others other apart,
  )

  told-Untouched :
      (v : Value)
      → JsonPrints p
      → Untouched p sock w
          (write_json p
            (connection_of sock timeout)
            v
            512
            (set_nonblocking p sock (record w { history = pool_create ∷ w.history })).1).1
  unfolding wire accepted
  told-Untouched v prints =
      let pooled = record w { history = pool_create ∷ w.history } in
      let told = (set_nonblocking p sock pooled).1 in
      let q = set_nonblocking-Quiet p sock pooled in
      let (text, one, d) = write_json-WritesLine p (connection_of sock timeout) v 512 told prints in
      (
        SameState-trans w told _ q.same d.same,
        λ other apart. d.adds other ∙ rw apart (q.wires other ∙ append-nil _),
      )

-- Refusing a client leaves the one that is served alone: no byte goes to any other socket, the
-- refused one is closed, and nothing but the history changes, the connection that events go to included. The condition is on
-- what the JSON printer prints.
pub refuse_conn-TurnsAway :
    (p : Pjlib) (timeout sock : ℕ) (w : World)
    → JsonPrints p
    → TurnsAway p sock w (refuse_conn p timeout sock w)
unfolding refuse_conn wire accepted
refuse_conn-TurnsAway p timeout sock w prints = closed-TurnsAway p timeout sock w _ (
    if-elim (Untouched p sock w) (p.pool_create (pool_create ∷ w.history))
      (λ e. told-Untouched p timeout sock w _ prints) (λ e. (refl, λ other apart. append-nil _)))
