-- ===== src/Server/Socket/Kernel.antt =====
-- What the calls of pjsocky_server_create and pjsocky_server_destroy mean to the operating system: the open
-- sockets, the file at the control socket's path with its mode, and whether the socket is listened on.
use pjsocky.Nameservers.{bytes_eq}
use pjsocky.Server.Socket.{owner_mode}
use pjsocky.Platform.{Platform, Trace, Action, socket, unlink, bind, chmod, listen, close}
use pjsocky.Prelude.{
  ℕ, ◌≡◌, Bool, true, false, not, ◌||◌, Option, none, some, List, [], ◌∷◌, ◌==◌, if◌then◌else◌,
  Status, Result, failure, success, ok, err,
}

-- The mode that the umask leaves, or that of the owner alone.
pub data Mode : Type 0 where
  wide owner_only : Mode

pub record Kernel : Type 0 where
  pub socks : List ℕ
  pub file : Option Mode
  pub listening : Bool

abbrev pub remove : ℕ → List ℕ → List ℕ
remove s [] = []
remove s (t ∷ ts) = let rest = remove s ts in if s == t then ts else t ∷ rest

abbrev pub set_mode : ℕ → Option Mode → Option Mode
set_mode mode none = none
set_mode mode (some m) = some (if mode == owner_mode then owner_only else wide)

-- What each call does, by its answer.
abbrev pub socket_opens : Result ℕ → Kernel → Kernel
socket_opens (ok s) k = record k { socks = s ∷ k.socks }
socket_opens (err e) k = k

abbrev pub unlink_removes : Kernel → Kernel
unlink_removes k = record k { file = none }

abbrev pub bind_makes : Status → Kernel → Kernel
bind_makes success k = record k { file = some wide }
bind_makes (failure e) k = k

abbrev pub chmod_sets : Bool → ℕ → Kernel → Kernel
chmod_sets done mode k = record k { file = if done then set_mode mode k.file else k.file }

abbrev pub listen_starts : Status → Kernel → Kernel
listen_starts success k = record k { listening = true }
listen_starts (failure e) k = k

abbrev pub close_ends : ℕ → Kernel → Kernel
close_ends s k = record k { socks = remove s k.socks; listening = false }

abbrev pub is_owner_only : Option Mode → Bool
is_owner_only (some owner_only) = true
is_owner_only _ = false

-- Nobody but the owner can connect.
abbrev pub is_guarded : Kernel → Bool
is_guarded k = not k.listening || is_owner_only k.file

module _ (p : Platform) (path : List ℕ) where
  -- A call that names another path does nothing to this one.
  abbrev pub at : List ℕ → Kernel → Kernel → Kernel
  at other changed k = if bytes_eq other path then changed else k

  abbrev pub effect : Action → Trace → Kernel → Kernel
  effect socket h k = socket_opens (p.socket h) k
  effect (unlink other) h k = at other (unlink_removes k) k
  effect (bind s other) h k = at other (bind_makes (p.bind h) k) k
  effect (chmod other mode) h k = at other (chmod_sets (p.chmod h) mode k) k
  effect (listen s backlog) h k = listen_starts (p.listen h) k
  effect (close s) h k = close_ends s k
  effect _ h k = k

  -- The state after the calls of a trace, from nothing.
  abbrev pub kernel : Trace → Kernel
  kernel [] = record { socks = []; file = none; listening = false }
  kernel (q ∷ h) = effect q (q ∷ h) (kernel h)

  -- At no point of a trace can anybody else.
  abbrev pub Guarded : Trace → Type 0
  Guarded [] = Unit {0}
  Guarded (q ∷ h) = (is_guarded (kernel (q ∷ h)) ≡ true) × Guarded h
