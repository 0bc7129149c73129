-- ===== src/Device/Said.antt =====
-- Selecting a device says nothing.
use pjsocky.Device.{
  close_idle, set_audio, store_capture, update_account, select_capture, set_video_capture,
}
use pjsocky.Pjlib.{
  Pjlib, AccConfig, VideoDevice, vid_dev_get_info, pool_create, acc_get_config, has_encoding,
}
use pjsocky.Protocol.Said.{Silent}
use pjsocky.World.{World}
use pjsocky.Prelude.{refl, inl, inr, ◌∷◌, arith, Bool-cases, ℤ, Result, ok, err}

module _ (p : Pjlib) where
  pub set_audio-Silent : (c b : ℤ) (w : World) → Silent w (set_audio p c b w).1
  unfolding set_audio close_idle
  set_audio-Silent c b w = ground arith

  store_capture-Silent :
      (acc_id c : ℤ) (r : Result AccConfig) (w : World) → Silent w (store_capture p acc_id c r w).1
  unfolding store_capture
  store_capture-Silent acc_id c (err e) w = refl
  store_capture-Silent acc_id c (ok cfg) w = ground arith

  update_account-Silent : (c : ℤ) (w : World) → Silent w (update_account p c w).1
  unfolding update_account
  update_account-Silent c w =
      let h = acc_get_config w.acc_id ∷ pool_create ∷ w.history in
      ground
        (arith, store_capture-Silent w.acc_id c (p.acc_get_config h) (record w { history = h }))

  select_capture-Silent :
      (c : ℤ) (r : Result VideoDevice) (w : World) → Silent w (select_capture p c r w).1
  unfolding select_capture
  select_capture-Silent c (err e) w = refl
  select_capture-Silent c (ok info) w = elim (Bool-cases (has_encoding info.dir)) [
    | inl e ↦ rw (e, select_capture) (update_account-Silent c (record w { video_capture_id = c }))
    | inr e ↦ rw (e, select_capture) refl
  ]

  pub set_video_capture-Silent : (c : ℤ) (w : World) → Silent w (set_video_capture p c w).1
  unfolding set_video_capture
  set_video_capture-Silent c w =
      let v = record w { history = vid_dev_get_info c ∷ w.history } in
      select_capture-Silent c (p.vid_dev_get_info v.history) v
