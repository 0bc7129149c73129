-- ===== src/Call/Commands.antt =====
-- src/call.c: the functions behind call.dial, call.hangup, call.hangup_all and call.answer.
pub mod Keeps
pub mod Said
use pjsocky.Call.{is_valid_call_id}
use pjsocky.Pjlib.{Pjlib, Request, CallSetting, make_call, call_hangup, call_answer, invalid_id}
use pjsocky.World.{World, M, ◌>>=◌, pure, ask, account_get_id, account_is_registered}
use pjsocky.Prelude.{
  String, ℕ, Bool, not, ◌||◌, if◌then◌else◌, ℤ, is_equal, Status, Result, failure, success, einval,
  einvalidop, ok, err,
}

unfoldable pub set_ring_timeout : ℕ → World → World
set_ring_timeout seconds w = record w { ring_timeout_sec = seconds }

module _ (p : Pjlib) where
  -- The library's default without a text stream, and without video where it is not wanted.
  unfoldable pub call_setting : Bool → CallSetting
  call_setting video = record {
    vid_cnt = if video then p.call_setting_default.vid_cnt else 0;
    txt_cnt = 0;
  }

  -- g_call_id is the out parameter of pjsua_call_make_call(), and is reset when that fails.
  dialled : Result ℤ → M (Result ℤ)
  dialled (err e) w = (err e, record w { call_id = invalid_id })
  dialled (ok id) w = (ok id, record w { call_id = id })

  unfoldable pub dial : String → Bool → M (Result ℤ)
  unfolding dialled call_setting
  dial uri video w =
      if is_equal (account_get_id w) invalid_id || not (account_is_registered w)
      then (err einvalidop, w)
      else let r = ask (make_call (account_get_id w) uri (call_setting video)) p.make_call w in
        dialled r.0 r.1

  unfoldable pub hangup : ℤ → ℕ → M Status
  hangup id code = do
    valid ← is_valid_call_id p id
    if valid then ask (call_hangup id code) p.call_hangup else pure (failure einval)

  -- Code 0 lets pjsua choose.
  unfoldable pub hangup_all : M Status
  hangup_all w =
      if is_equal w.call_id invalid_id
      then (success, w)
      else ask (call_hangup w.call_id 0) p.call_hangup w

  unfoldable pub answer : ℤ → ℕ → Bool → M Status
  unfolding call_setting
  answer id code video = do
    valid ← is_valid_call_id p id
    if valid
        then ask (call_answer id (call_setting video) code) p.call_answer
        else pure (failure einval)
