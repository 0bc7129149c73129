-- ===== src/Framing/Send/Wire.antt =====
-- What reaches the peer.
use pjsocky.Framing.Send.{
  Round, stop, sent, again, wait_round, after_round, send_round, send_loop, rounds, or_timed_out,
  send_all, write_line,
}
use pjsocky.Framing.Buffer.{newline}
use pjsocky.Pjlib.{Pjlib, Request, tick_count}
use pjsocky.World.{World, Connection, M}
use pjsocky.Framing.Send.Peer.{accepted, wire, Adds, Adds-nil, Adds-append}
use pjsocky.World.Same.{SameState, SameState-trans}
use pjsocky.Prelude.{
  ℕ, zero, suc, ◌≡◌, refl, sym, ap, ◌∙◌, subst, inl, inr, Bool, true, false, Option, none, some,
  List, [], ◌∷◌, ◌++◌, append_assoc, append-nil, arith, ◌==◌, if◌then◌else◌, take, drop,
  take-append-drop, Status, is_success, Status-cases,
}

took : Round → List ℕ → List ℕ
took (sent n) bs = take n bs
took (stop s) bs = []
took again bs = []

module _ (p : Pjlib) (sock timeout started : ℕ) where
  wait_round-wire :
      (w : World) (other : ℕ) (bs : List ℕ)
      → let r = wait_round p sock timeout started w in
        SameState w r.1 × (wire p other r.1.history ≡ wire p other w.history) × (took r.0 bs ≡ [])
  unfolding wait_round wire took
  wait_round-wire w other bs = ground (arith, append-nil (wire p other w.history))

  send_round-wire :
      (bs : List ℕ) (w : World) (other : ℕ)
      → let r = send_round p sock timeout started bs w in
        SameState w r.1
        × (wire p other r.1.history ≡ (
            if sock == other
            then wire p other w.history ++ took r.0 bs
            else wire p other w.history))
  unfolding send_round took wire
  send_round-wire bs w other = ground (arith, append-nil (wire p other w.history))

-- A call that was given `bs` to send: it changes the history alone, and sends a prefix of `bs`, the
-- whole of it if it succeeds.
pub record Delivers (p : Pjlib) (sock : ℕ) (bs : List ℕ) (w v : World) (done : Bool) : Type 0 where
  pub same : SameState w v
  pub sent : List ℕ
  pub unsent : List ℕ
  pub parts : bs ≡ sent ++ unsent
  pub adds : Adds p sock sent w.history v.history
  pub whole : done ≡ true → unsent ≡ []

abbrev is_done : Option Status → Bool
is_done none = false
is_done (some s) = is_success s

module _ (p : Pjlib) (sock timeout started : ℕ) where
  round_Adds :
      (bs : List ℕ) (w : World)
      → let r = send_round p sock timeout started bs w in
        Adds p sock (took r.0 bs) w.history r.1.history
  round_Adds bs w other = (send_round-wire p sock timeout started bs w other).1

  -- One more round in front of a call that delivers.
  after_round-Delivers :
      (loop : List ℕ → M (Option Status))
      → ((bs : List ℕ) (w : World) → Delivers p sock bs w (loop bs w).1 (is_done (loop bs w).0))
      → (r : Round) (bs : List ℕ) (w v : World) → SameState w v
      → Adds p sock (took r bs) w.history v.history
      → let s = after_round p loop r bs v in Delivers p sock bs w s.1 (is_done s.0)
  unfolding took
  after_round-Delivers loop ih (stop e) bs w v same adds = record {
    same = same;
    sent = [];
    unsent = bs;
    parts = refl;
    adds = adds;
    whole = λ e. cc;
  }
  after_round-Delivers loop ih (sent n) bs w v same adds =
      let d = ih (drop n bs) v in
      record {
        same = SameState-trans w v _ same d.same;
        sent = take n bs ++ d.sent;
        unsent = d.unsent;
        parts =
            sym (take-append-drop n bs)
            ∙ ap (◌++◌ (take n bs)) d.parts
            ∙ sym (append_assoc (take n bs) d.sent d.unsent);
        adds = Adds-append p sock _ _ _ _ _ adds d.adds;
        whole = d.whole;
      }
  after_round-Delivers loop ih again bs w v same adds =
      let d = ih bs v in
      record {
        same = SameState-trans w v _ same d.same;
        sent = d.sent;
        unsent = d.unsent;
        parts = d.parts;
        adds = Adds-append p sock [] _ _ _ _ adds d.adds;
        whole = d.whole;
      }

  send_loop-Delivers :
      (fuel : ℕ) (bs : List ℕ) (w : World)
      → let r = send_loop p fuel sock timeout started bs w in Delivers p sock bs w r.1 (is_done r.0)
  unfolding send_loop
  send_loop-Delivers zero bs w = record {
    same = refl;
    sent = [];
    unsent = bs;
    parts = refl;
    adds = Adds-nil p sock w.history;
    whole = λ e. cc;
  }
  send_loop-Delivers (suc fuel) [] w = record {
    same = refl;
    sent = [];
    unsent = [];
    parts = refl;
    adds = Adds-nil p sock w.history;
    whole = λ e. refl;
  }
  send_loop-Delivers (suc fuel) (b ∷ bs) w =
      let r = send_round p sock timeout started (b ∷ bs) w in
      after_round-Delivers (send_loop p fuel sock timeout started) (send_loop-Delivers fuel) r.0
        (b ∷ bs) w r.1 (send_round-wire p sock timeout started (b ∷ bs) w 0).0
        (round_Adds (b ∷ bs) w)

module _ (p : Pjlib) (sock : ℕ) where
  pub nothing_Delivers : (bs : List ℕ) (w : World) → Delivers p sock bs w w false
  nothing_Delivers bs w = record {
    same = refl;
    sent = [];
    unsent = bs;
    parts = refl;
    adds = Adds-nil p sock w.history;
    whole = λ e. cc;
  }

  is_success-or_timed_out : (o : Option Status) → is_success (or_timed_out p o) ≡ is_done o
  is_success-or_timed_out none = refl
  is_success-or_timed_out (some s) = refl

  -- A request that sends nothing, then a call that delivers.
  pub after_silence :
      (q : Request) (bs : List ℕ) (w v : World) (done : Bool)
      → ((other : ℕ) → accepted p other q (q ∷ w.history) ≡ [])
      → Delivers p sock bs (record w { history = q ∷ w.history }) v done
      → Delivers p sock bs w v done
  unfolding wire
  after_silence q bs w v done silent d = record {
    same = d.same;
    sent = d.sent;
    unsent = d.unsent;
    parts = d.parts;
    adds = λ other. ground (arith, d.adds other, silent other, append-nil (wire p other w.history));
    whole = d.whole;
  }

  send_all-Delivers :
      (bs : List ℕ) (timeout : ℕ) (w : World)
      → let r = send_all p sock bs timeout w in Delivers p sock bs w r.1 (is_success r.0)
  unfolding send_all accepted
  send_all-Delivers bs timeout w =
      let tick = record w { history = tick_count ∷ w.history } in
      let started = p.tick_count (tick_count ∷ w.history) in
      let r = send_loop p (rounds p bs) sock timeout started bs tick in
      rw (is_success-or_timed_out r.0) (
        after_silence tick_count bs w r.1 (is_done r.0) (λ other. refl)
          (send_loop-Delivers p sock timeout started (rounds p bs) bs tick))

  all_sent : (xs : List ℕ) (u v : World) (a : Delivers p sock xs u v true) → xs ≡ a.sent
  all_sent xs u v a = a.parts ∙ ap (◌++◌ a.sent) (a.whole refl) ∙ append-nil a.sent

  then_Delivers :
      (xs ys : List ℕ) (u v w : World) (done : Bool)
      → Delivers p sock xs u v true
      → Delivers p sock ys v w done
      → Delivers p sock (xs ++ ys) u w done
  then_Delivers xs ys u v w done a b = record {
    same = SameState-trans u v w a.same b.same;
    sent = xs ++ b.sent;
    unsent = b.unsent;
    parts = ap (◌++◌ xs) b.parts ∙ sym (append_assoc xs b.sent b.unsent);
    adds =
        Adds-append p sock xs b.sent _ _ _
          (subst (λ t. Adds p sock t u.history v.history) (sym (all_sent xs u v a)) a.adds) b.adds;
    whole = b.whole;
  }

  cut_Delivers :
      (xs ys : List ℕ) (u v : World)
      → Delivers p sock xs u v false
      → Delivers p sock (xs ++ ys) u v false
  cut_Delivers xs ys u v a = record {
    same = a.same;
    sent = a.sent;
    unsent = a.unsent ++ ys;
    parts = rw a.parts (append_assoc a.sent a.unsent ys);
    adds = a.adds;
    whole = λ e. cc;
  }

-- Writing a line sends the line and one newline, in this order and with nothing else in between. If
-- it fails, the peer was sent a prefix of that; no other connection is sent anything.
pub write_line-Delivers :
    (p : Pjlib) (c : Connection) (line : List ℕ) (w : World)
    → let r = write_line p c line w in
      Delivers p c.sock (line ++ newline ∷ []) w r.1 (is_success r.0)
unfolding write_line
write_line-Delivers p c line w =
    let first = send_all p c.sock line c.write_timeout_msec w in
    let d = send_all-Delivers p c.sock line c.write_timeout_msec w in
    elim (Status-cases first.0) [
      | inl e ↦
          rw (e, write_line)
            (then_Delivers p c.sock line (newline ∷ []) w first.1 _ _ (rw (ap is_success e) at d)
              (send_all-Delivers p c.sock (newline ∷ []) c.write_timeout_msec first.1))
      | inr (x, e) ↦
          rw e (cut_Delivers p c.sock line (newline ∷ []) w first.1 (rw (ap is_success e) at d))
    ]
