-- ===== src/Main/Stages/Socket.antt =====
-- The calls for the control socket in their order.
use pjsocky.Main.Stages.{started, is_allowed, stage, Ordered}
use pjsocky.Platform.{Platform, Trace, Action, socket, unlink, bind, chmod, listen, close}
use pjsocky.Server.Socket.{
  owner_mode, sun_path_size, Listener, listened, narrowed, bound, opened, server_create,
}
use pjsocky.Prelude.{
  ℕ, ◌≡◌, refl, ap, ◌∙◌, Bool, true, false, List, ◌∷◌, leb, if-elim, length, Status, Result,
  failure, success, ok, err,
}

-- The calls for the control socket are made when pjsua has been started, and leave it so.
module _ (p : Platform) where
  abbrev pub Kept : Trace → Type 0
  Kept h = Ordered p h × (stage p h ≡ started)

  pub Kept-call :
      (q : Action) (h : Trace)
      → Kept h
      → is_allowed q started ≡ true
      → stage p (q ∷ h) ≡ stage p h
      → Kept (q ∷ h)
  Kept-call q h (ordered, at) allowed same = ((ap (is_allowed q) at ∙ allowed, ordered), same ∙ at)

  listened-Kept :
      (srv : Listener) (status : Status) (h : Trace) → Kept h → Kept (listened srv (status, h)).1
  unfolding listened
  listened-Kept srv success h k = k
  listened-Kept srv (failure e) h k =
      Kept-call (unlink srv.path) (close srv.listen_sock ∷ h)
        (Kept-call (close srv.listen_sock) h k refl refl) refl refl

  narrowed-Kept :
      (srv : Listener) (done : Bool) (h : Trace) → Kept h → Kept (narrowed p srv (done, h)).1
  unfolding narrowed
  narrowed-Kept srv true h k =
      let q = listen srv.listen_sock 4 in
      listened-Kept srv (p.listen (q ∷ h)) (q ∷ h) (Kept-call q h k refl refl)
  narrowed-Kept srv false h k =
      Kept-call (unlink srv.path) (close srv.listen_sock ∷ h)
        (Kept-call (close srv.listen_sock) h k refl refl) refl refl

  bound-Kept :
      (srv : Listener) (status : Status) (h : Trace) → Kept h → Kept (bound p srv (status, h)).1
  unfolding bound
  bound-Kept srv success h k =
      let q = chmod srv.path owner_mode in
      narrowed-Kept srv (p.chmod (q ∷ h)) (q ∷ h) (Kept-call q h k refl refl)
  bound-Kept srv (failure e) h k = Kept-call (close srv.listen_sock) h k refl refl

  opened-Kept :
      (path : List ℕ) (timeout : ℕ) (r : Result ℕ) (h : Trace)
      → Kept h
      → Kept (opened p path timeout (r, h)).1
  unfolding opened
  opened-Kept path timeout (err e) h k = k
  opened-Kept path timeout (ok s) h k =
      let srv : Listener = record { listen_sock = s; path = path; write_timeout_msec = timeout } in
      let h' = bind s path ∷ unlink path ∷ h in
      bound-Kept srv (p.bind h') h' (
        Kept-call (bind s path) (unlink path ∷ h) (Kept-call (unlink path) h k refl refl) refl refl)

  pub server_create-Kept :
      (path : List ℕ) (timeout : ℕ) (h : Trace) → Kept h → Kept (server_create p path timeout h).1
  unfolding server_create
  server_create-Kept path timeout h k =
      if-elim (λ (r : Result Listener × Trace). Kept r.1) (leb sun_path_size (length path))
        (λ long. k)
        (λ fits.
          opened-Kept path timeout (p.socket (socket ∷ h)) (socket ∷ h)
            (Kept-call socket h k refl refl))
