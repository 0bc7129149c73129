-- ===== src/Main/Stages/Steps.antt =====
-- The parts of main() keep the order of the calls.
use pjsocky.Main.{Ending, going, exited, B, followed, fail, checked}
use pjsocky.Main.Stages.{Stage, is_live, is_allowed, on_success, stage, Ordered}
use pjsocky.Platform.{Platform, Trace, Action}
use pjsocky.Server.Socket.Kernel.{is_guarded, kernel, Guarded}
use pjsocky.Server.Socket.Owned.{left}
use pjsocky.Prelude.{ℕ, ◌≡◌, refl, ap, ◌∙◌, true, false, List, [], ◌∷◌, Status, failure, success}

-- `path` is that of the control socket.
module _ (p : Platform) (path : List ℕ) where
  -- A trace in order, at a stage, without a control socket.
  pub record At (st : Stage) (h : Trace) : Type 0 where
    pub ordered : Ordered p h
    pub guarded : Guarded p path h
    pub stage_is : stage p h ≡ st
    pub no_socket : kernel p path h ≡ left []

  -- Where main() has returned, it returns 1 and there is no pjsua left.
  abbrev pub Over : ℕ → Trace → Type 0
  Over code h =
      (code ≡ 1)
      × Ordered p h
      × Guarded p path h
      × (is_live (stage p h) ≡ false)
      × (kernel p path h ≡ left [])

  abbrev pub Reached {ℓ} : {A : Type ℓ} → Stage → Ending A × Trace → Type 0
  Reached st (going a, h) = At st h
  Reached st (exited code, h) = Over code h

  pub followed-Reached :
      {A C : Type 0} (st next : Stage) (r : Ending A × Trace) (f : A → B C)
      → Reached st r
      → ((a : A) (h : Trace) → At st h → Reached next (f a h))
      → Reached next (followed f r)
  followed-Reached st next (going a, h) f at rest = rest a h at
  followed-Reached st next (exited code, h) f over rest = over

  -- A call that has nothing to do with the control socket.
  pub At-call :
      (q : Action) (st next : Stage) (h : Trace)
      → At st h
      → is_allowed q st ≡ true
      → stage p (q ∷ h) ≡ next
      → kernel p path (q ∷ h) ≡ kernel p path h
      → At next (q ∷ h)
  At-call q st next h at allowed now same = record {
    ordered = (ap (is_allowed q) at.stage_is ∙ allowed, at.ordered);
    guarded = (ap is_guarded (same ∙ at.no_socket), at.guarded);
    stage_is = now;
    no_socket = same ∙ at.no_socket;
  }

  -- One that leaves the stage too.
  pub At-stays :
      (q : Action) (st : Stage) (h : Trace)
      → At st h
      → is_allowed q st ≡ true
      → stage p (q ∷ h) ≡ stage p h
      → kernel p path (q ∷ h) ≡ kernel p path h
      → At st (q ∷ h)
  At-stays q st h at allowed keeps same = At-call q st st h at allowed (keeps ∙ at.stage_is) same

  pub fail-Reached :
      (A : Type 0) (st next : Stage) (h : Trace)
      → At st h
      → is_live st ≡ true
      → Reached next (fail {A = A} h)
  fail-Reached A st next h at live = (
    refl,
    (ap is_live at.stage_is ∙ live, at.ordered),
    (ap is_guarded at.no_socket, at.guarded),
    refl,
    at.no_socket,
  )

  -- A call whose failure ends main().
  pub checked-Reached :
      (st next : Stage) (status : Status) (h : Trace)
      → At (on_success status next st) h
      → is_live st ≡ true
      → Reached next (checked (status, h))
  checked-Reached st next success h at live = at
  checked-Reached st next (failure e) h at live = fail-Reached (Unit {0}) st next h at live

  -- The same for a call that leaves the stage.
  pub checked-stays :
      (st : Stage) (status : Status) (h : Trace)
      → At st h
      → is_live st ≡ true
      → Reached st (checked (status, h))
  checked-stays st success h at live = at
  checked-stays st (failure e) h at live = fail-Reached (Unit {0}) st st h at live
