-- ===== src/Main/Stops.antt =====
-- How main() ends: the server's loop returns, and when.
use pjsocky.Main.{Ending, going, start_up, server_of, exit, shut_down, serve, main}
use pjsocky.Pjlib.{Pjlib}
use pjsocky.Platform.{Platform, Trace}
use pjsocky.Server.Loop.{
  Turn, select_failed, ready, stop_signal, accept_failed, Server, serve_listener, turn, turn_of,
  turn_checked, turn_running, run,
}
use pjsocky.Server.Socket.{Listener}
use pjsocky.Prelude.{
  ◌≡◌, refl, ap, ◌∙◌, ◌⊎◌, inl, inr, Bool, true, false, Option, none, some, List, [], ◌∷◌, ◌++◌,
  if-elim, Error, Status, failure, success,
}

abbrev is_some : Option Status → Bool
is_some none = false
is_some (some status) = true

module _ (lib : Pjlib) where
  run-append : (ts us : List Turn) (s : Server) → run lib (ts ++ us) s ≡ run lib us (run lib ts s)
  unfolding run
  run-append [] us s = refl
  run-append (t ∷ ts) us s = run-append ts us (turn lib t s)

  turn-returned :
      (t : Turn) (s : Server) (status : Status) → s.returned ≡ some status → turn lib t s ≡ s
  unfolding turn turn_of
  turn-returned t s status h = rw h

  -- A loop that has returned does nothing more.
  run-returned :
      (ts : List Turn) (s : Server) (status : Status) → s.returned ≡ some status → run lib ts s ≡ s
  unfolding run
  run-returned [] s status h = refl
  run-returned (t ∷ ts) s status h =
      ap (run lib ts) (turn-returned t s status h) ∙ run-returned ts s status h

  abbrev Returned : Server → Type 0
  Returned s = (status : Status) × (s.returned ≡ some status)

  -- `status` is what the loop has returned before the turn.
  turn_of-ends :
      (status : Option Status) (t : Turn) (s : Server)
      → s.returned ≡ status
      → Returned (turn_checked lib t s)
      → Returned (turn_of lib status t s)
  unfolding turn_of
  turn_of-ends none t s same ends = ends
  turn_of-ends (some status) t s same ends = (status, same)

  turn_checked-ends :
      (t : Turn) (s : Server) → Returned (turn_running lib t s) → Returned (turn_checked lib t s)
  unfolding turn_checked
  turn_checked-ends t s ends =
      if-elim Returned s.stop_requested (λ stop. (success, refl)) (λ go. ends)

  accept_failed-ends :
      (readable : Bool) (e : Error) (s : Server)
      → Returned (turn lib (ready readable (accept_failed e)) s)
  unfolding turn turn_running serve_listener
  accept_failed-ends readable e s =
      let t = ready readable (accept_failed e) in
      turn_of-ends s.returned t s refl (turn_checked-ends t s (failure e, refl))

  select_failed-ends : (e : Error) (s : Server) → Returned (turn lib (select_failed e) s)
  unfolding turn turn_running
  select_failed-ends e s =
      let t = select_failed e in
      turn_of-ends s.returned t s refl (turn_checked-ends t s (failure e, refl))

  -- After the signal the loop is to stop, or has returned.
  abbrev Stopping : Server → Type 0
  Stopping s = Returned s ⊎ s.stop_requested ≡ true

  stop_signal-Stopping :
      (status : Option Status) (s : Server)
      → s.returned ≡ status
      → Stopping (turn_of lib status stop_signal s)
  unfolding turn_of turn_checked turn_running
  stop_signal-Stopping (some status) s same = inl (status, same)
  stop_signal-Stopping none s same =
      if-elim Stopping s.stop_requested (λ stop. inl (success, refl)) (λ go. inr refl)

  turn-Stopping : (t : Turn) (s : Server) → Stopping s → Returned (turn lib t s)
  unfolding turn turn_checked
  turn-Stopping t s (inl (status, h)) =
      (status, ap (λ (s : Server). s.returned) (turn-returned t s status h) ∙ h)
  turn-Stopping t s (inr stop) =
      turn_of-ends s.returned t s refl
        (if-elim Returned s.stop_requested (λ h. (success, refl)) (λ go. absurd (cc)))

  -- Turns in which the loop returns end it, whatever was before and is after them.
  run-Returned :
      (before after : List Turn) (s : Server) (t : Turn)
      → ((s : Server) → Returned (turn lib t s))
      → Returned (run lib (before ++ t ∷ after) s)
  unfolding run
  run-Returned before after s t ends =
      let (status, h) = ends (run lib before s) in
      (
        status,
        ap (λ (s : Server). s.returned)
              (run-append before (t ∷ after) s
                ∙ run-returned after (turn lib t (run lib before s)) status h)
            ∙ h,
      )

  stop-Returned :
      (before after : List Turn) (s : Server) (t : Turn)
      → Returned (run lib (before ++ stop_signal ∷ t ∷ after) s)
  unfolding run turn
  stop-Returned before after s t =
      let u = run lib before s in
      let (status, h) =
        turn-Stopping t (turn lib stop_signal u) (stop_signal-Stopping u.returned u refl) in
      (
        status,
        ap (λ (s : Server). s.returned)
              (run-append before (stop_signal ∷ t ∷ after) s
                ∙ run-returned after (turn lib t (turn lib stop_signal u)) status h)
            ∙ h,
      )

module _ (p : Platform) where
  shut_down-exits :
      (srv : Listener) (r : Option Status) (s : Server) (h : Trace) (status : Status)
      → r ≡ some status
      → (shut_down p srv r s h).0 ≡ exit 0
  unfolding shut_down
  shut_down-exits srv none s h status e = absurd (cc)
  shut_down-exits srv (some other) s h status e = refl

  main-exits :
      (lib : Pjlib) (turns : List Turn) (srv : Listener) (h : Trace)
      → start_up p [] ≡ (going srv, h)
      → Returned lib (run lib turns (server_of srv))
      → (main p lib turns).0 ≡ exit 0
  unfolding main serve
  main-exits lib turns srv h up (status, r) =
      let s = run lib turns (server_of srv) in
      ap (λ (e : Ending Listener × Trace). (serve p lib turns e).0) up
      ∙ shut_down-exits srv s.returned s h status r

  -- A daemon that has started up ends within one turn of the server's loop after a shutdown signal,
  -- whatever has happened before; and at once where select() or accept() fails. In all three cases
  -- main() returns 0.
  pub main-ends :
      (lib : Pjlib) (before after : List Turn) (t : Turn) (readable : Bool) (e : Error)
      (srv : Listener) (h : Trace)
      → start_up p [] ≡ (going srv, h)
      → ((main p lib (before ++ stop_signal ∷ t ∷ after)).0 ≡ exit 0)
        × ((main p lib (before ++ ready readable (accept_failed e) ∷ after)).0 ≡ exit 0)
        × ((main p lib (before ++ select_failed e ∷ after)).0 ≡ exit 0)
  main-ends lib before after t readable e srv h up =
      let s = server_of srv in
      let refused = ready readable (accept_failed e) in
      (
        main-exits lib (before ++ stop_signal ∷ t ∷ after) srv h up
            (stop-Returned lib before after s t),
        main-exits lib (before ++ refused ∷ after) srv h up
            (run-Returned lib before after s refused (accept_failed-ends lib readable e)),
        main-exits lib (before ++ select_failed e ∷ after) srv h up
            (run-Returned lib before after s (select_failed e) (select_failed-ends lib e)),
      )
