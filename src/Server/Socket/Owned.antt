-- ===== src/Server/Socket/Owned.antt =====
-- pjsocky_server_create and pjsocky_server_destroy against the operating system's state.
use pjsocky.Nameservers.{bytes_eq}
use pjsocky.Platform.{Platform, Trace, socket, unlink, bind, chmod, listen, close}
use pjsocky.Server.Socket.{
  sun_path_size, owner_mode, Listener, listened, narrowed, bound, opened, server_create,
  server_destroy,
}
use pjsocky.Server.Socket.Kernel.{
  Mode, wide, owner_only, Kernel, remove, socket_opens, unlink_removes, bind_makes, chmod_sets,
  listen_starts, close_ends, is_guarded, at, kernel, Guarded,
}
use pjsocky.Prelude.{
  ℕ, ◌≡◌, refl, ap, ◌∙◌, ◌⊎◌, inl, inr, Bool, true, false, Option, none, some, List, [], ◌∷◌, leb,
  ==_iff, if-elim, length, Error, Status, Result, failure, success, os, ok, err,
}

bytes_eq_refl : (s : List ℕ) → bytes_eq s s ≡ true
bytes_eq_refl [] = refl
bytes_eq_refl (c ∷ s) = rw ((==_iff c c).1 refl, bytes_eq_refl s)

remove_self : (s : ℕ) (ss : List ℕ) → remove s (s ∷ ss) ≡ ss
remove_self s ss = rw ((==_iff s s).1 refl)

-- A socket that nobody listens on, one that is served, and none.
abbrev pub opened_kernel : ℕ → List ℕ → Option Mode → Kernel
opened_kernel s ss file = record { socks = s ∷ ss; file = file; listening = false }

abbrev pub served_kernel : ℕ → List ℕ → Kernel
served_kernel s ss = record { socks = s ∷ ss; file = some owner_only; listening = true }

abbrev pub left : List ℕ → Kernel
left ss = record { socks = ss; file = none; listening = false }

listen_starts-guarded :
    (s : ℕ) (ss : List ℕ) (status : Status)
    → is_guarded (listen_starts status (opened_kernel s ss (some owner_only))) ≡ true
listen_starts-guarded s ss success = refl
listen_starts-guarded s ss (failure e) = refl

bind_makes-guarded :
    (s : ℕ) (ss : List ℕ) (status : Status)
    → is_guarded (bind_makes status (opened_kernel s ss none)) ≡ true
bind_makes-guarded s ss success = refl
bind_makes-guarded s ss (failure e) = refl

socket_opens-guarded :
    (r : Result ℕ) (k : Kernel) → k.listening ≡ false → is_guarded (socket_opens r k) ≡ true
socket_opens-guarded (ok s) k quiet = rw quiet
socket_opens-guarded (err e) k quiet = rw quiet

module _ (p : Platform) (path : List ℕ) (timeout : ℕ) where
  abbrev listener : ℕ → Listener
  listener s = record { listen_sock = s; path = path; write_timeout_msec = timeout }

  -- A call that names the path has its effect.
  at-path : (changed k : Kernel) → at p path path changed k ≡ changed
  at-path changed k = rw (bytes_eq_refl path)

  -- What server_create makes of a state: a listener for the path, to which nobody but the owner can
  -- connect; or no listener, no further open socket, and at most the file of an earlier run.
  abbrev pub Ends : Kernel → Result Listener × Trace → Type 0
  Ends k (ok srv, h) =
      (srv ≡ listener srv.listen_sock)
      × (kernel p path h ≡ served_kernel srv.listen_sock k.socks)
      × Guarded p path h
  Ends k (err e, h) =
      ((kernel p path h).socks ≡ k.socks)
      × ((kernel p path h).listening ≡ false)
      × ((kernel p path h).file ≡ k.file ⊎ (kernel p path h).file ≡ none)
      × Guarded p path h

  -- The socket is closed, and then its file is removed.
  undone-Ends :
      (k : Kernel) (s : ℕ) (file : Option Mode) (e : Error) (h : Trace)
      → kernel p path h ≡ opened_kernel s k.socks file
      → Guarded p path h
      → Ends k (err e, unlink path ∷ close s ∷ h)
  undone-Ends k s file e h now g =
      let closed = ap (close_ends s) now in
      let gone : kernel p path (unlink path ∷ close s ∷ h) ≡ left k.socks =
        at-path _ _ ∙ ap unlink_removes closed ∙ ap left (remove_self s k.socks) in
      (
        ap (λ (v : Kernel). v.socks) gone,
        ap (λ (v : Kernel). v.listening) gone,
        inr (ap (λ (v : Kernel). v.file) gone),
        (ap is_guarded gone, (refl, g)),
      )

  listened-Ends :
      (k : Kernel) (s : ℕ) (status : Status) (h : Trace)
      → kernel p path h ≡ listen_starts status (opened_kernel s k.socks (some owner_only))
      → Guarded p path h
      → Ends k (listened (listener s) (status, h))
  unfolding listened
  listened-Ends k s success h now g = (refl, now, g)
  listened-Ends k s (failure e) h now g = undone-Ends k s (some owner_only) e h now g

  narrowed-Ends :
      (k : Kernel) (s : ℕ) (done : Bool) (h : Trace)
      → kernel p path h ≡ chmod_sets done owner_mode (opened_kernel s k.socks (some wide))
      → Guarded p path h
      → Ends k (narrowed p (listener s) (done, h))
  unfolding narrowed
  narrowed-Ends k s true h now g =
      let q = listen s 4 in
      let next = ap (listen_starts (p.listen (q ∷ h))) now in
      listened-Ends k s (p.listen (q ∷ h)) (q ∷ h) next
        (ap is_guarded next ∙ listen_starts-guarded s k.socks (p.listen (q ∷ h)), g)
  narrowed-Ends k s false h now g =
      undone-Ends k s (some wide) (os (p.errno (unlink path ∷ close s ∷ h))) h now g

  bound-Ends :
      (k : Kernel) (s : ℕ) (status : Status) (h : Trace)
      → kernel p path h ≡ bind_makes status (opened_kernel s k.socks none)
      → Guarded p path h
      → Ends k (bound p (listener s) (status, h))
  unfolding bound
  bound-Ends k s success h now g =
      let q = chmod path owner_mode in
      let next = at-path _ _ ∙ ap (chmod_sets (p.chmod (q ∷ h)) owner_mode) now in
      narrowed-Ends k s (p.chmod (q ∷ h)) (q ∷ h) next (ap is_guarded next, g)
  bound-Ends k s (failure e) h now g =
      let closed = ap (close_ends s) now ∙ ap left (remove_self s k.socks) in
      (
        ap (λ (v : Kernel). v.socks) closed,
        refl,
        inr (ap (λ (v : Kernel). v.file) closed),
        (refl, g),
      )

  opened-Ends :
      (k : Kernel) (r : Result ℕ) (h : Trace)
      → kernel p path h ≡ socket_opens r k
      → k.listening ≡ false
      → Guarded p path h
      → Ends k (opened p path timeout (r, h))
  unfolding opened
  opened-Ends k (err e) h now quiet g = (
    ap (λ (v : Kernel). v.socks) now,
    ap (λ (v : Kernel). v.listening) now ∙ quiet,
    inl (ap (λ (v : Kernel). v.file) now),
    g,
  )
  opened-Ends k (ok s) h now quiet g =
      let fresh : kernel p path (unlink path ∷ h) ≡ opened_kernel s k.socks none =
        at-path _ _
        ∙ ap unlink_removes now
        ∙ ap (λ b. record (opened_kernel s k.socks none) { listening = b }) quiet in
      let h' = bind s path ∷ unlink path ∷ h in
      let next = at-path _ _ ∙ ap (bind_makes (p.bind h')) fresh in
      bound-Ends k s (p.bind h') h' next
        (ap is_guarded next ∙ bind_makes-guarded s k.socks (p.bind h'), (ap is_guarded fresh, g))

  -- pjsocky_server_create, from a state in which nobody listens on the control socket. On success the
  -- listener has the path and the timeout that were asked for, its socket is the only one that was
  -- opened, and the file at the path is the owner's alone. On failure the open sockets are those of
  -- before, there is no listener, and the file is as before or removed. On every path, failing
  -- ones included, there is no moment at which anybody but the owner can connect.
  pub server_create-Ends :
      (h : Trace)
      → (kernel p path h).listening ≡ false
      → Guarded p path h
      → Ends (kernel p path h) (server_create p path timeout h)
  unfolding server_create
  server_create-Ends h quiet g =
      let k = kernel p path h in
      let r = p.socket (socket ∷ h) in
      if-elim (Ends k) (leb sun_path_size (length path)) (λ long. (refl, quiet, inl refl, g))
        (λ fits. opened-Ends k r (socket ∷ h) refl quiet (socket_opens-guarded r k quiet, g))

  -- pjsocky_server_destroy of a listener that pjsocky_server_create has made: the sockets are those that
  -- were open before, the file is gone and nobody listens.
  pub server_destroy-left :
      (k : Kernel) (srv : Listener) (h : Trace)
      → Ends k (ok srv, h)
      → (kernel p path (server_destroy srv h) ≡ left k.socks)
        × Guarded p path (server_destroy srv h)
  unfolding server_destroy
  server_destroy-left k srv h (same, now, g) =
      let closed = close_ends srv.listen_sock (kernel p path h) in
      let gone : at p path srv.path (unlink_removes closed) closed ≡ left k.socks =
        ap (λ (x : Listener). at p path x.path (unlink_removes closed) closed) same
        ∙ at-path _ _
        ∙ ap (λ v. unlink_removes (close_ends srv.listen_sock v)) now
        ∙ ap left (remove_self srv.listen_sock k.socks) in
      (gone, (ap is_guarded gone, (refl, g)))
