-- ===== src/Framing/Send/Total.antt =====
-- The send loop ends: a round hands bytes over, fails, or waits, and after a wait that was not
-- interrupted the next send does not block.
use pjsocky.Framing.Send.{
  Round, stop, sent, again, is_would_block, after_round, wait_round, send_round, send_loop, rounds,
  or_timed_out, send_all,
}
use pjsocky.Pjlib.{
  Pjlib, History, Wait, send, tick_count, wait_writable, writable, wait_error, eintr,
}
use pjsocky.World.{World}
use pjsocky.Prelude.{
  ℕ, zero, suc, ◌+◌, ◌-◌, ◌*◌, ◌≤◌, ◌<◌, ◌≡◌, refl, sym, ap, ◌∙◌, ◌⊎◌, inl, inr, Bool, true, false,
  Option, some, List, [], ◌∷◌, arith, ◌==◌, if◌then◌else◌, Bool-cases, length, drop, length-drop,
  Status, Result, Result-cases, failure, success, ok, err,
}

-- Whether an answer of send() is that it would block.
abbrev pub blocks : Result ℕ → Bool
blocks (ok n) = false
blocks (err e) = is_would_block e

-- select(2): a socket that it reports as writable takes bytes without blocking.
abbrev pub WritableSends : Pjlib → Type 0
WritableSends p =
    (h : History) (sock t : ℕ) (bs : List ℕ)
    → p.wait_writable (wait_writable sock t ∷ h) ≡ writable
    → blocks (p.send (send sock bs ∷ wait_writable sock t ∷ h)) ≡ false

abbrev pub interrupt : Wait → ℕ
interrupt (wait_error e) = if e == eintr then 1 else 0
interrupt _ = 0

-- How many waits for a socket signals have interrupted so far.
abbrev pub interrupted : Pjlib → History → ℕ
interrupted p [] = 0
interrupted p (wait_writable sock t ∷ h) =
    interrupt (p.wait_writable (wait_writable sock t ∷ h)) + interrupted p h
interrupted p (_ ∷ h) = interrupted p h

module _ (p : Pjlib) (ready : WritableSends p) (sock timeout started : ℕ) where
  -- Whether the next send would block.
  abbrev blocked : List ℕ → World → Bool
  blocked bs w = blocks (p.send (send sock bs ∷ w.history))

  -- A round without a wait.
  abbrev Sends : Round → Type 0
  Sends (stop e) = Unit {0}
  Sends (sent n) = 0 < n
  Sends again = ⊥

  -- What a wait leaves: the next send does not block, or a signal came.
  abbrev Waited : List ℕ → World → Round → World → Type 0
  Waited bs w (stop e) v = Unit {0}
  Waited bs w (sent n) v = ⊥
  Waited bs w again v =
      (interrupted p v.history ≡ suc (interrupted p w.history))
      ⊎ ((interrupted p v.history ≡ interrupted p w.history) × (blocked bs v ≡ false))

  wait_round-Waited :
      (bs : List ℕ) (w : World) → let r = wait_round p sock timeout started w in Waited bs w r.0 r.1
  unfolding wait_round
  wait_round-Waited bs w =
      let now = p.tick_count (tick_count ∷ w.history) in
      ground (arith, ready (tick_count ∷ w.history) sock (timeout - (now - started)) bs)

  send_round-Waited :
      (bs : List ℕ) (w : World)
      → blocked bs w ≡ true
      → let r = send_round p sock timeout started bs w in Waited bs w r.0 r.1
  unfolding send_round
  send_round-Waited bs w e = elim (Result-cases (p.send (send sock bs ∷ w.history))) [
    | inl (n, s) ↦ absurd (ground (arith, s, e))
    | inr (x, s) ↦
        let full : is_would_block x ≡ true = ap blocks (sym s) ∙ e in
        rw (s, full) (wait_round-Waited bs (record w { history = send sock bs ∷ w.history }))
  ]

  send_round-Sends :
      (bs : List ℕ) (w : World)
      → blocked bs w ≡ false
      → let r = send_round p sock timeout started bs w in
        Sends r.0 × (interrupted p r.1.history ≡ interrupted p w.history)
  unfolding send_round
  send_round-Sends bs w e = elim (Result-cases (p.send (send sock bs ∷ w.history))) [
    | inl (n, s) ↦ rw s (ground arith)
    | inr (x, s) ↦
        let free : is_would_block x ≡ false = ap blocks (sym s) ∙ e in rw (s, free) (tt, refl)
  ]

  -- The count of interrupted waits only grows.
  wait_round-grows :
      (w : World)
      → interrupted p w.history ≤ interrupted p (wait_round p sock timeout started w).1.history
  unfolding wait_round
  wait_round-grows w = ground arith

  send_round-grows :
      (bs : List ℕ) (w : World)
      → interrupted p w.history ≤ interrupted p (send_round p sock timeout started bs w).1.history
  unfolding send_round wait_round
  send_round-grows bs w = ground arith

  after_round-grows :
      (loop : List ℕ → World → Option Status × World)
      → ((bs : List ℕ) (w : World) → interrupted p w.history ≤ interrupted p (loop bs w).1.history)
      → (r : Round) (bs : List ℕ) (w : World)
      → interrupted p w.history ≤ interrupted p (after_round p loop r bs w).1.history
  after_round-grows loop ih (stop e) bs w = omega arith
  after_round-grows loop ih (sent n) bs w = ih (drop n bs) w
  after_round-grows loop ih again bs w = ih bs w

  send_loop-grows :
      (fuel : ℕ) (bs : List ℕ) (w : World)
      → interrupted p w.history
        ≤ interrupted p (send_loop p fuel sock timeout started bs w).1.history
  unfolding send_loop
  send_loop-grows zero bs w = omega arith
  send_loop-grows (suc fuel) [] w = omega arith
  send_loop-grows (suc fuel) (b ∷ bs) w =
      let r = send_round p sock timeout started (b ∷ bs) w in
      omega (
        arith,
        send_round-grows (b ∷ bs) w,
        after_round-grows (send_loop p fuel sock timeout started) (send_loop-grows fuel) r.0
            (b ∷ bs) r.1,
      )

  length-drop_lt : (n : ℕ) (b : ℕ) (bs : List ℕ) → 0 < n → length (drop n (b ∷ bs)) ≤ length bs
  length-drop_lt n b bs h = omega (arith, length-drop n (b ∷ bs))

  abbrev Ended : Option Status × World → Type 0
  Ended r = (s : Status) × (r.0 ≡ some s)

  -- `fuel` is enough for what is left to send, a wait that may come first (`first`), and `k` waits
  -- that signals interrupt.
  abbrev Ends : ℕ → Type 0
  Ends fuel =
      (bs : List ℕ) (w : World) (first k : ℕ)
      → (first ≡ 0 → blocked bs w ≡ false)
      → 2 * length bs + first + k < fuel
      → let r = send_loop p fuel sock timeout started bs w in
        interrupted p r.1.history ≤ interrupted p w.history + k → Ended r

  after_wait-Ended :
      (fuel : ℕ) (r : Round) (b : ℕ) (bs : List ℕ) (w v : World) (first k : ℕ)
      → Ends fuel
      → Waited (b ∷ bs) w r v
      → 0 < first
      → 2 * length (b ∷ bs) + first + k < suc fuel
      → let end = after_round p (send_loop p fuel sock timeout started) r (b ∷ bs) v in
        interrupted p end.1.history ≤ interrupted p w.history + k → Ended end
  after_wait-Ended fuel (stop e) b bs w v first k ih waited may enough few = (failure e, refl)
  after_wait-Ended fuel (sent n) b bs w v first k ih waited may enough few = absurd waited
  after_wait-Ended fuel again b bs w v first k ih (inl signal) may enough few =
      let grows = send_loop-grows fuel (b ∷ bs) v in
      ih (b ∷ bs) v 1 (k - 1) (λ e. absurd (omega (arith, e))) (omega (arith, signal, grows, few))
        (omega (arith, signal, grows, few))
  after_wait-Ended fuel again b bs w v first k ih (inr (same, free)) may enough few =
      ih (b ∷ bs) v 0 k (λ e. free) (omega arith) (omega (arith, same, few))

  after_send-Ended :
      (fuel : ℕ) (r : Round) (b : ℕ) (bs : List ℕ) (w v : World) (first k : ℕ)
      → Ends fuel
      → Sends r
      → interrupted p v.history ≡ interrupted p w.history
      → 2 * length (b ∷ bs) + first + k < suc fuel
      → let end = after_round p (send_loop p fuel sock timeout started) r (b ∷ bs) v in
        interrupted p end.1.history ≤ interrupted p w.history + k → Ended end
  after_send-Ended fuel (stop e) b bs w v first k ih sends same enough few = (failure e, refl)
  after_send-Ended fuel (sent n) b bs w v first k ih sends same enough few =
      ih (drop n (b ∷ bs)) v 1 k (λ e. absurd (omega (arith, e)))
        (omega (arith, enough, length-drop_lt n b bs sends)) (omega (arith, same, few))
  after_send-Ended fuel again b bs w v first k ih sends same enough few = absurd sends

  send_loop-Ends : (fuel : ℕ) → Ends fuel
  unfolding send_loop
  send_loop-Ends zero bs w first k clear enough few = elim enough [ ]
  send_loop-Ends (suc fuel) [] w first k clear enough few = (success, refl)
  send_loop-Ends (suc fuel) (b ∷ bs) w first k clear enough few =
      let r = send_round p sock timeout started (b ∷ bs) w in
      elim (Bool-cases (blocked (b ∷ bs) w)) [
        | inl full ↦
            after_wait-Ended fuel r.0 b bs w r.1 first k (send_loop-Ends fuel)
              (send_round-Waited (b ∷ bs) w full) (may_block first full clear) enough few
        | inr free ↦
            let (sends, same) = send_round-Sends (b ∷ bs) w free in
            after_send-Ended fuel r.0 b bs w r.1 first k (send_loop-Ends fuel) sends same enough few
      ]
    where
      may_block :
          (first : ℕ)
          → blocked (b ∷ bs) w ≡ true
          → (first ≡ 0 → blocked (b ∷ bs) w ≡ false)
          → 0 < first
      may_block zero full clear = absurd (cc (full, clear refl))
      may_block (suc n) full clear = omega arith

-- If a socket that select() reports as writable takes bytes without blocking, and signals interrupt
-- at most `max_interrupts` of the waits of this call, then send_all's loop comes to an end of its own
-- within the rounds that the model allows it, whatever the clock shows and however few bytes each
-- send() takes: its status is the loop's, never a lack of fuel.
pub send_all_total :
    (p : Pjlib) (sock timeout : ℕ) (bs : List ℕ) (w : World)
    → WritableSends p
    → interrupted p (send_all p sock bs timeout w).1.history
      ≤ interrupted p w.history + p.max_interrupts
    → let v = record w { history = tick_count ∷ w.history } in
      let started = p.tick_count (tick_count ∷ w.history) in
      (s : Status) × ((send_loop p (rounds p bs) sock timeout started bs v).0 ≡ some s)
      × ((send_all p sock bs timeout w).0 ≡ s)
unfolding send_all
send_all_total p sock timeout bs w ready few =
    let v = record w { history = tick_count ∷ w.history } in
    let started = p.tick_count (tick_count ∷ w.history) in
    let (s, e) =
      send_loop-Ends p ready sock timeout started (rounds p bs) bs v 1 p.max_interrupts
        (λ e. absurd (omega (arith, e))) (omega arith) few in
    (s, e, ap (or_timed_out p) e)
