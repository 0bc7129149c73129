-- ===== src/Main.antt =====
-- src/main.c: main(). The trace has its calls of the libraries and the system, newest first; the server's
-- loop runs on the state of the daemon (World.antt). What the libraries call back while they start, the
-- registration of the signal handler and the log lines are left out.
pub mod Config
pub mod Codecs
pub mod Stages
pub mod Stops
pub mod Running
mod Tests
use pjsocky.Framing.Buffer.{cleared}
use pjsocky.Main.Codecs.{apply_video_format_override}
use pjsocky.Main.Config.{ua_config, log_config, media_config, write_timeout}
use pjsocky.Pjlib.{Pjlib}
use pjsocky.Platform.{
  Platform, Trace, Action, ask, pjsua_create, startup_pool, mutex_create, tsx_set_timers,
  pjsua_init, vid_register_factory, transport_create, pjsua_start, aud_dev_count, set_null_snd_dev,
  pjsua_destroy,
}
use pjsocky.Server.Loop.{Turn, Server, run}
use pjsocky.Server.Socket.{Listener, server_create, server_destroy}
use pjsocky.World.{start}
use pjsocky.Prelude.{
  ℕ, ◌/◌, Bool, true, false, Option, none, some, List, [], ◌∷◌, ◌==◌, if◌then◌else◌, Status, Result,
  failure, success, ok, err,
}

-- A part of main() goes on with a value, or has returned an exit code.
pub data Ending {ℓ} (A : Type ℓ) : Type ℓ where
  going : A → Ending A
  exited : ℕ → Ending A

abbrev pub B : Type 0 → Type 0
B A = Trace → Ending A × Trace

abbrev pub followed : {A C : Type 0} → (A → B C) → Ending A × Trace → Ending C × Trace
followed f (going a, h) = f a h
followed f (exited code, h) = (exited code, h)

infixl 5 ◌>>=◌ ◌>>◌
abbrev pub ◌>>=◌ : {A C : Type 0} → B A → (A → B C) → B C
◌>>=◌ m f h = followed f (m h)

abbrev pub ◌>>◌ : {C : Type 0} → B (Unit {0}) → B C → B C
m >> k = m >>= λ _. k

-- A failure from here on destroys pjsua.
abbrev pub fail : {A : Type 0} → B A
fail h = (exited 1, pjsua_destroy ∷ h)

abbrev pub checked : Status × Trace → Ending (Unit {0}) × Trace
checked (success, h) = (going tt, h)
checked (failure e, h) = fail h

abbrev pub then_do : (Trace → Trace) → B (Unit {0})
then_do f h = (going tt, f h)

-- The first call: where it fails there is nothing to destroy.
unfoldable pub library_created : Status × Trace → Ending (Unit {0}) × Trace
library_created (success, h) = (going tt, h)
library_created (failure e, h) = (exited 1, h)

unfoldable pub pool_created : Bool × Trace → Ending (Unit {0}) × Trace
pool_created (true, h) = (going tt, h)
pool_created (false, h) = fail h

unfoldable pub listening : Result Listener × Trace → Ending Listener × Trace
listening (ok srv, h) = (going srv, h)
listening (err e, h) = fail h

-- PJSOCKY_SOCK_PATH_DEFAULT
abbrev pub sock_path_default : List ℕ
sock_path_default =
    b'/' ∷ b't' ∷ b'm' ∷ b'p' ∷ b'/' ∷ b'p' ∷ b'j' ∷ b's' ∷ b'o' ∷ b'c' ∷ b'k' ∷ b'y' ∷ b'.' ∷ b's'
    ∷ b'o' ∷ b'c' ∷ b'k' ∷ []

abbrev pub given_or : List ℕ → Option (List ℕ) → List ℕ
given_or path none = path
given_or path (some given) = given

abbrev pub is_given : Option (List ℕ) → Bool
is_given none = false
is_given (some given) = true

-- The locals of pjsocky_server_run(), and the daemon at its start.
unfoldable pub server_of : Listener → Server
server_of srv = record {
  write_timeout_msec = srv.write_timeout_msec;
  stop_requested = false;
  conn = record { active = false; sock = 0; framing = cleared };
  world = start;
  returned = none;
}

pub data Outcome : Type 0 where
  exit : ℕ → Outcome
  running : Server → Outcome

module _ (p : Platform) where
  -- pjsocky_events_create(): the instance has no connection yet.
  unfoldable pub events_create : Trace → Status × Trace
  events_create h = ask mutex_create p.mutex_create h

  unfoldable pub create_library : B (Unit {0})
  unfolding library_created pool_created events_create
  create_library = do
    λ h. library_created (ask pjsua_create p.pjsua_create h)
    λ h. pool_created (ask startup_pool p.startup_pool h)
    λ h. checked (events_create h)

  unfoldable pub fast_timers : Trace → Trace
  fast_timers h =
      if is_given (p.getenv "PJSOCKY_TEST_FAST_TIMERS") then tsx_set_timers 100 0 0 1000 ∷ h else h

  unfoldable pub init_library : B (Unit {0})
  unfolding fast_timers
  init_library = do
    then_do fast_timers
    λ h. checked (ask (pjsua_init (ua_config p) (log_config p) (media_config p)) p.pjsua_init h)
    λ h. checked (ask vid_register_factory p.vid_register_factory h)
    then_do (apply_video_format_override p)

  -- Whether the null sound device could be set is only logged.
  unfoldable pub null_sound : ℕ × Trace → Trace
  null_sound (count, h) = if count == 0 then set_null_snd_dev ∷ h else h

  unfoldable pub start_library : B (Unit {0})
  unfolding null_sound
  start_library = do
    λ h. checked (ask transport_create p.transport_create h)
    λ h. checked (ask pjsua_start p.pjsua_start h)
    then_do (λ h. null_sound (ask aud_dev_count p.aud_dev_count h))

  abbrev pub sock_path : List ℕ
  sock_path = given_or sock_path_default (p.getenv "PJSOCKY_SOCK_PATH")

  unfoldable pub create_server : B Listener
  unfolding listening
  create_server h = listening (
      server_create p sock_path (write_timeout p.long_max (p.getenv "PJSOCKY_WRITE_TIMEOUT_MSEC"))
        h)

  unfoldable pub start_up : B Listener
  start_up = do create_library; init_library; start_library; create_server

  -- From pjsocky_server_run() on. Whether it was stopped or failed is only logged.
  unfoldable pub shut_down : Listener → Option Status → Server → Trace → Outcome × Trace
  shut_down srv none s h = (running s, h)
  shut_down srv (some status) s h = (exit 0, pjsua_destroy ∷ server_destroy srv h)

  unfoldable pub serve : Pjlib → List Turn → Ending Listener × Trace → Outcome × Trace
  unfolding shut_down server_of
  serve lib turns (exited code, h) = (exit code, h)
  serve lib turns (going srv, h) =
      let s = run lib turns (server_of srv) in shut_down srv s.returned s h

  -- main(), as far as the turns of the server's loop go.
  unfoldable pub main : Pjlib → List Turn → Outcome × Trace
  unfolding serve
  main lib turns = serve lib turns (start_up [])
