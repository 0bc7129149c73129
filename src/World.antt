-- ===== src/World.antt =====
-- The state of the daemon: the file-scope variables of src/account.c, src/device.c and src/call.c, the
-- connection that src/proto/events.c holds, and the history of requests to the environment.
pub mod Same
use pjsocky.Pjlib.{Request, History, invalid_id, invalid_dev}
use pjsocky.Prelude.{ℕ, ℤ, pos, Bool, false, Option, none, [], ◌∷◌}

-- A pj_timer_entry with its "scheduled" flag: g_ring_timer and g_ring_timer_scheduled.
pub record Timer : Type 0 where
  pub scheduled : Bool
  pub user_data : ℤ

-- What pjsocky_framing_t holds for writing.
pub record Connection : Type 0 where
  pub sock : ℕ
  pub write_timeout_msec : ℕ

pub record World : Type 0 where
  pub history : History
  -- account.c
  pub acc_id : ℤ
  pub registered : Bool
  -- device.c
  pub video_capture_id : ℤ
  -- call.c
  pub call_id : ℤ
  pub ring_timeout_sec : ℕ
  pub ring : Timer
  pub video_failed_call_id : ℤ
  pub watchdog : Timer
  pub video_tx_packets_seen : ℕ
  pub video_stall_ticks : ℕ
  pub report : Timer
  -- events.c
  pub connection : Option Connection

abbrev pub idle_timer : Timer
idle_timer = record { scheduled = false; user_data = pos 0 }

-- The values at program start.
unfoldable pub start : World
start = record {
  history = [];
  acc_id = invalid_id;
  registered = false;
  video_capture_id = invalid_dev;
  call_id = invalid_id;
  ring_timeout_sec = 0;
  ring = idle_timer;
  video_failed_call_id = invalid_id;
  watchdog = idle_timer;
  video_tx_packets_seen = 0;
  video_stall_ticks = 0;
  report = idle_timer;
  connection = none;
}

-- A function that reads and changes the state.
abbrev pub M : Type 0 → Type 0
M A = World → A × World

infixl 5 ◌>>=◌ ◌>>◌
abbrev pub ◌>>=◌ : {A B : Type 0} → M A → (A → M B) → M B
◌>>=◌ m f w = let r = m w in f r.0 r.1

abbrev pub ◌>>◌ : {A B : Type 0} → M A → M B → M B
◌>>◌ m k w = k (m w).1

abbrev pub pure : {A : Type 0} → A → M A
pure a w = (a, w)

-- A request whose answer is a function of the history that ends in it.
abbrev pub ask : {A : Type 0} → Request → (History → A) → M A
ask q answer w = let h = q ∷ w.history in (answer h, record w { history = h })

-- A request with no answer.
abbrev pub tell : Request → M (Unit {0})
tell q w = (tt, record w { history = q ∷ w.history })

-- pjsocky_account_get_id, pjsocky_account_is_registered, pjsocky_call_get_id,
-- pjsocky_call_get_ring_timeout and pjsocky_device_get_video_capture
abbrev pub account_get_id : World → ℤ
account_get_id w = w.acc_id

abbrev pub account_is_registered : World → Bool
account_is_registered w = w.registered

abbrev pub call_get_id : World → ℤ
call_get_id w = w.call_id

abbrev pub call_get_ring_timeout : World → ℕ
call_get_ring_timeout w = w.ring_timeout_sec

abbrev pub device_get_video_capture : World → ℤ
device_get_video_capture w = w.video_capture_id

-- The current state as a value, in a `do` block.
abbrev pub get : M World
get w = (w, w)
