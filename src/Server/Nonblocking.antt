-- ===== src/Server/Nonblocking.antt =====
-- Making a socket non-blocking changes nothing but the history, and sends and says nothing.
use pjsocky.Framing.Send.Peer.{accepted, wire}
use pjsocky.World.Same.{SameState}
use pjsocky.Pjlib.{Pjlib, get_flags, set_flags}
use pjsocky.Protocol.Said.{Silent}
use pjsocky.Server.{flags_set, flags_known, set_nonblocking, with_nonblock}
use pjsocky.World.{World}
use pjsocky.Prelude.{ℕ, ◌≡◌, refl, ◌∙◌, ◌∷◌, append-nil, ℤ, pos, negsuc}

-- A state that differs in requests that send nothing to anybody and say nothing.
pub record Quiet (p : Pjlib) (w v : World) : Type 0 where
  pub same : SameState w v
  pub wires : (sock : ℕ) → wire p sock v.history ≡ wire p sock w.history
  pub silent : Silent w v

module _ (p : Pjlib) where
  flags_set-Quiet :
      (sock flags : ℕ) (r : ℤ) (w : World)
      → Quiet p w (flags_set p r (record w { history = set_flags sock flags ∷ w.history })).1
  unfolding flags_set wire accepted
  flags_set-Quiet sock flags (pos n) w = record {
    same = refl;
    wires = λ s. append-nil (wire p s w.history);
    silent = refl;
  }
  flags_set-Quiet sock flags (negsuc n) w = record {
    same = refl;
    wires = λ s. append-nil (wire p s w.history);
    silent = refl;
  }

  Quiet-refl : (w : World) → Quiet p w w
  Quiet-refl w = record { same = refl; wires = λ s. refl; silent = refl }

  flags_known-Quiet : (sock : ℕ) (r : ℤ) (w : World) → Quiet p w (flags_known p sock r w).1
  unfolding flags_known
  flags_known-Quiet sock (pos flags) w =
      flags_set-Quiet sock (with_nonblock flags)
        (p.set_flags (set_flags sock (with_nonblock flags) ∷ w.history)) w
  flags_known-Quiet sock (negsuc n) w = Quiet-refl w

  pub set_nonblocking-Quiet : (sock : ℕ) (w : World) → Quiet p w (set_nonblocking p sock w).1
  unfolding set_nonblocking wire accepted
  set_nonblocking-Quiet sock w =
      let v = record w { history = get_flags sock ∷ w.history } in
      let q = flags_known-Quiet sock (p.get_flags v.history) v in
      record {
        same = q.same;
        wires = λ s. q.wires s ∙ append-nil (wire p s w.history);
        silent = q.silent;
      }
