-- ===== src/Main/Stages/Finish.antt =====
-- main() as a whole: the control socket, the server's loop and the end.
use pjsocky.Main.{
  Ending, going, exited, B, followed, listening, create_library, init_library, start_library,
  create_server, start_up, sock_path, server_of, Outcome, exit, running, shut_down, serve, main,
}
use pjsocky.Main.Config.{write_timeout}
use pjsocky.Main.Stages.{Stage, created, initialised, started, destroyed, is_live, stage, Ordered}
use pjsocky.Main.Stages.Parts.{create_library-Reached, init_library-Reached, start_library-Reached}
use pjsocky.Main.Stages.Steps.{At, Over, Reached}
use pjsocky.Pjlib.{Pjlib}
use pjsocky.Platform.{Platform, Trace, unlink, close}
use pjsocky.Server.Loop.{Turn, Server, run}
use pjsocky.Server.Socket.{Listener, server_create, server_destroy}
use pjsocky.Server.Socket.Kernel.{Kernel, is_guarded, kernel, Guarded}
use pjsocky.Server.Socket.Owned.{left, served_kernel, Ends, server_create-Ends, server_destroy-left}
use pjsocky.Main.Stages.Socket.{Kept, Kept-call, server_create-Kept}
use pjsocky.Prelude.{
  ℕ, zero, suc, ◌≡◌, refl, ap, subst, ◌⊎◌, inl, inr, true, false, Option, none, some, List, [], ◌∷◌,
  arith, Status, Result, ok, err,
}

module _ (p : Platform) (path : List ℕ) where
  -- The daemon listens, or main() has returned.
  abbrev pub Listening : Ending Listener × Trace → Type 0
  Listening (going srv, h) =
      Kept p h
      × Guarded p path h
      × (kernel p path h ≡ served_kernel srv.listen_sock [])
      × (srv.path ≡ path)
  Listening (exited code, h) = Over p path code h

  followed-Listening :
      {A : Type 0} (st : Stage) (r : Ending A × Trace) (f : A → B Listener)
      → Reached p path st r
      → ((a : A) (h : Trace) → At p path st h → Listening (f a h))
      → Listening (followed f r)
  followed-Listening st (going a, h) f at rest = rest a h at
  followed-Listening st (exited code, h) f over rest = over

  -- No socket is open and nobody listens.
  left-kernel :
      (k : Kernel)
      → k.socks ≡ []
      → k.listening ≡ false
      → k.file ≡ none ⊎ k.file ≡ none
      → k ≡ left []
  left-kernel k socks quiet (inl file) = ground arith
  left-kernel k socks quiet (inr file) = ground arith

  listening-Listening :
      (timeout : ℕ) (r : Result Listener × Trace)
      → Kept p r.1
      → Ends p path timeout (left []) r
      → Listening (listening r)
  unfolding listening
  listening-Listening timeout (ok srv, h) kept (same, now, g) =
      (kept, g, now, ap (λ (x : Listener). x.path) same)
  listening-Listening timeout (err e, h) (ordered, at) (socks, quiet, file, g) =
      let gone = left-kernel (kernel p path h) socks quiet file in
      (refl, (ap is_live at, ordered), (ap is_guarded gone, g), refl, gone)

-- What main() is at with its outcome.
module _ (p : Platform) where
  abbrev pub Finished : Outcome × Trace → Type 0
  Finished (exit zero, h) =
      Ordered p h
      × Guarded p (sock_path p) h
      × (stage p h ≡ destroyed)
      × (kernel p (sock_path p) h ≡ left [])
  Finished (exit (suc code), h) =
      (code ≡ 0)
      × Ordered p h
      × Guarded p (sock_path p) h
      × (is_live (stage p h) ≡ false)
      × (kernel p (sock_path p) h ≡ left [])
  Finished (running s, h) =
      Ordered p h
      × Guarded p (sock_path p) h
      × (stage p h ≡ started)
      × ((kernel p (sock_path p) h).listening ≡ true)

  create_server-Listening :
      (h : Trace) → At p (sock_path p) started h → Listening p (sock_path p) (create_server p h)
  unfolding create_server
  create_server-Listening h at =
      let path = sock_path p in
      let timeout = write_timeout p.long_max (p.getenv "PJSOCKY_WRITE_TIMEOUT_MSEC") in
      listening-Listening p path timeout (server_create p path timeout h)
        (server_create-Kept p path timeout h (at.ordered, at.stage_is))
        (subst (λ k. Ends p path timeout k (server_create p path timeout h)) at.no_socket
          (server_create-Ends p path timeout h (ap (λ (k : Kernel). k.listening) at.no_socket)
            at.guarded))

  start_up-Listening : Listening p (sock_path p) (start_up p [])
  unfolding start_up
  start_up-Listening =
      let path = sock_path p in
      followed-Listening p path created (create_library p []) _
        (create_library-Reached p path []
          (record { ordered = tt; guarded = tt; stage_is = refl; no_socket = refl }))
        (λ u h at.
          followed-Listening p path initialised (init_library p h) _
            (init_library-Reached p path h at)
            (λ v h' at'.
              followed-Listening p path started (start_library p h') _
                (start_library-Reached p path h' at')
                (λ x h'' at''. create_server-Listening h'' at'')))

  shut_down-Finished :
      (srv : Listener) (status : Option Status) (s : Server) (h : Trace)
      → Listening p (sock_path p) (going srv, h)
      → Finished (shut_down p srv status s h)
  unfolding shut_down server_destroy
  shut_down-Finished srv none s h ((ordered, at), g, now, same) =
      (ordered, g, at, ap (λ (k : Kernel). k.listening) now)
  shut_down-Finished srv (some status) s h (kept, g, now, same) =
      let path = sock_path p in
      let made = ap (λ at. record srv { path = at }) same in
      let (gone, g') =
        server_destroy-left p path srv.write_timeout_msec (left []) srv h (made, now, g) in
      let (ordered, at) =
        Kept-call p (unlink srv.path) (close srv.listen_sock ∷ h)
          (Kept-call p (close srv.listen_sock) h kept refl refl) refl refl in
      ((ap is_live at, ordered), (ap is_guarded gone, g'), refl, gone)

  serve-Finished :
      (lib : Pjlib) (turns : List Turn) (r : Ending Listener × Trace)
      → Listening p (sock_path p) r
      → Finished (serve p lib turns r)
  unfolding serve
  serve-Finished lib turns (exited zero, h) over = absurd (omega (arith, over.0))
  serve-Finished lib turns (exited (suc code), h) over =
      (omega (arith, over.0), over.1, over.2, over.3, over.4)
  serve-Finished lib turns (going srv, h) l =
      let s = run lib turns (server_of srv) in shut_down-Finished srv s.returned s h l

  -- main(), however the environment answers, and after any turns of the server's loop. Every call of the
  -- trace was made when pjsua was ready for it; and at no moment could anybody but the owner connect
  -- to the control socket. Where main() has returned 1, it never created pjsua or has destroyed it;
  -- where it has returned 0 it has destroyed it; in both cases no socket is left open and none is listened
  -- on. While it runs, pjsua has been started and the control socket is listened on. It returns
  -- nothing else.
  pub main-Finished : (lib : Pjlib) (turns : List Turn) → Finished (main p lib turns)
  unfolding main
  main-Finished lib turns = serve-Finished lib turns (start_up p []) start_up-Listening
