-- ===== src/Device.antt =====
-- src/device.c: enumeration and selection of the audio and video devices. The log lines are left
-- out.
pub mod Select
pub mod Said
mod Tests
use pjsocky.Pjlib.{
  Pjlib, Request, AudioDevice, VideoDevice, AccConfig, SoundParam, enum_aud_devs, vid_enum_devs,
  vid_dev_get_info, snd_is_active, call_get_count, set_no_snd_dev, set_snd_dev, pool_create,
  acc_get_config, acc_modify, has_encoding, invalid_id,
}
use pjsocky.World.{World, M, ◌>>=◌, ◌>>◌, pure, ask, tell, get, account_get_id}
use pjsocky.Prelude.{
  ℕ, true, List, ◌==◌, if◌then◌else◌, ℤ, is_equal, Status, is_success, Result, failure, success,
  einval, ok, err,
}

-- PJSOCKY_MAX_DEVICES
abbrev pub max_devices : ℕ
max_devices = 32

module _ (p : Pjlib) where
  unfoldable pub list_audio : ℕ → M (Result (List AudioDevice))
  list_audio count = ask (enum_aud_devs count) p.enum_aud_devs

  unfoldable pub list_video : ℕ → M (Result (List VideoDevice))
  list_video count = ask (vid_enum_devs count) p.vid_enum_devs

  -- The sound device is closed only where it is open and no call is there; the count of the calls is
  -- asked for only if it is open.
  close_idle : M (Unit {0})
  close_idle = do
    open_now ← ask snd_is_active p.snd_is_active
    if open_now
        then (do
          calls ← ask call_get_count p.call_get_count
          if calls == 0 then tell set_no_snd_dev else pure tt)
        else pure tt

  unfoldable pub set_audio : ℤ → ℤ → M Status
  unfolding close_idle
  set_audio capture_id playback_id = do
    close_idle
    let param : SoundParam = record {
      capture_dev = capture_id;
      playback_dev = playback_id;
      no_immediate_open = true;
    }
    ask (set_snd_dev param) p.set_snd_dev

  -- The account's own default device follows the selection.
  store_capture : ℤ → ℤ → Result AccConfig → M (Unit {0})
  store_capture acc_id capture_id (err e) = pure tt
  store_capture acc_id capture_id (ok cfg) = do
    status ← ask (acc_modify acc_id (record cfg { vid_cap_dev = capture_id })) p.acc_modify
    if is_success status
        then (do verify ← ask (acc_get_config acc_id) p.acc_get_config; pure tt)
        else pure tt

  update_account : ℤ → M (Unit {0})
  unfolding store_capture
  update_account capture_id = do
    w ← get
    if is_equal (account_get_id w) invalid_id then pure tt else (do
      pool ← ask pool_create p.pool_create
      if pool
          then (do
            cfg ← ask (acc_get_config (account_get_id w)) p.acc_get_config
            store_capture (account_get_id w) capture_id cfg)
          else pure tt)

  select_capture : ℤ → Result VideoDevice → M Status
  unfolding update_account
  select_capture capture_id (err e) = pure (failure einval)
  select_capture capture_id (ok info) =
      if has_encoding info.dir
      then (λ w.
          (success, (update_account capture_id (record w { video_capture_id = capture_id })).1))
      else pure (failure einval)

  unfoldable pub set_video_capture : ℤ → M Status
  unfolding select_capture
  set_video_capture capture_id = do
    info ← ask (vid_dev_get_info capture_id) p.vid_dev_get_info
    select_capture capture_id info
