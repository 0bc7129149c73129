-- ===== src/Server/Socket.antt =====
-- src/proto/server.c: pjsocky_server_create and pjsocky_server_destroy, which set the listening socket up
-- and take it down. A path is a list of bytes without a NUL.
pub mod Kernel
pub mod Owned
use pjsocky.Platform.{Platform, Trace, ask, socket, unlink, bind, chmod, listen, close}
use pjsocky.Prelude.{
  ℕ, Bool, true, false, List, ◌∷◌, leb, if◌then◌else◌, length, Status, Result, failure, success,
  enametoolong, os, ok, err,
}

-- sizeof(addr.sun_path) on Linux
abbrev pub sun_path_size : ℕ
sun_path_size = 108

-- S_IRUSR | S_IWUSR
abbrev pub owner_mode : ℕ
owner_mode = 0o600

-- pjsocky_server, as far as pjsocky_server_create sets it.
pub record Listener : Type 0 where
  pub listen_sock : ℕ
  pub path : List ℕ
  pub write_timeout_msec : ℕ

-- What follows each call, by its answer. listen() is the last of them.
unfoldable pub listened : Listener → Status × Trace → Result Listener × Trace
listened srv (success, h) = (ok srv, h)
listened srv (failure e, h) = (err e, unlink srv.path ∷ close srv.listen_sock ∷ h)

module _ (p : Platform) where
  -- Where chmod() fails, errno is read after the socket has been closed and unlinked.
  unfoldable pub narrowed : Listener → Bool × Trace → Result Listener × Trace
  unfolding listened
  narrowed srv (true, h) = listened srv (ask (listen srv.listen_sock 4) p.listen h)
  narrowed srv (false, h) =
      let undone = unlink srv.path ∷ close srv.listen_sock ∷ h in
      (err (os (p.errno undone)), undone)

  unfoldable pub bound : Listener → Status × Trace → Result Listener × Trace
  unfolding narrowed
  bound srv (success, h) = narrowed srv (ask (chmod srv.path owner_mode) p.chmod h)
  bound srv (failure e, h) = (err e, close srv.listen_sock ∷ h)

  unfoldable pub opened : List ℕ → ℕ → Result ℕ × Trace → Result Listener × Trace
  unfolding bound
  opened path write_timeout_msec (err e, h) = (err e, h)
  opened path write_timeout_msec (ok sock, h) =
      bound (record { listen_sock = sock; path = path; write_timeout_msec = write_timeout_msec })
        (ask (bind sock path) p.bind (unlink path ∷ h))

  unfoldable pub server_create : List ℕ → ℕ → Trace → Result Listener × Trace
  unfolding opened
  server_create path write_timeout_msec h =
      if leb sun_path_size (length path)
      then (err enametoolong, h)
      else opened path write_timeout_msec (ask socket p.socket h)

-- The socket of a Listener is never PJ_INVALID_SOCKET.
unfoldable pub server_destroy : Listener → Trace → Trace
server_destroy srv h = unlink srv.path ∷ close srv.listen_sock ∷ h
