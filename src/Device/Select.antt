-- ===== src/Device/Select.antt =====
-- What the selection of a device does and leaves alone.
use pjsocky.Device.{
  close_idle, set_audio, store_capture, update_account, select_capture, set_video_capture,
}
use pjsocky.Pjlib.{
  Pjlib, History, VideoDevice, AccConfig, set_no_snd_dev, call_get_count, snd_is_active,
  set_snd_dev, vid_dev_get_info, acc_get_config, pool_create, has_encoding, latest,
}
use pjsocky.World.{World}
use pjsocky.Prelude.{
  ◌≡◌, refl, inl, inr, Bool, true, false, some, [], ◌∷◌, arith, if◌then◌else◌, Bool-cases, ℤ,
  Status, Result, failure, success, einval, ok, err,
}

-- The sound device is closed only where it was just found open and then no call was there.
unfoldable pub ClosesIdle : Pjlib → History → Type 0
ClosesIdle p (set_no_snd_dev ∷ call_get_count ∷ snd_is_active ∷ h) =
    (p.call_get_count (call_get_count ∷ snd_is_active ∷ h) ≡ 0)
    × (p.snd_is_active (snd_is_active ∷ h) ≡ true)
    × ClosesIdle p h
ClosesIdle p (set_no_snd_dev ∷ h) = false ≡ true
ClosesIdle p (_ ∷ h) = ClosesIdle p h
ClosesIdle p [] = true ≡ true

-- Choosing the sound devices closes the sound device only if it is open and no call is there, asks
-- for the two devices chosen without opening them, gives pjsua-lib's status, and changes nothing else.
pub set_audio-ClosesIdle :
    (p : Pjlib) (capture_id playback_id : ℤ) (w : World)
    → ClosesIdle p w.history
    → let r = set_audio p capture_id playback_id w in
      ClosesIdle p r.1.history
      × (latest r.1.history
          ≡ some (
              set_snd_dev (record {
                capture_dev = capture_id;
                playback_dev = playback_id;
                no_immediate_open = true;
              })))
      × (r.0 ≡ p.set_snd_dev r.1.history)
      × (r.1 ≡ record w { history = r.1.history })
unfolding set_audio ClosesIdle close_idle
set_audio-ClosesIdle p capture_id playback_id w h = ground arith

pub set_audio-SameState :
    (p : Pjlib) (c b : ℤ) (w : World)
    → (set_audio p c b w).1 ≡ record w { history = (set_audio p c b w).1.history }
unfolding set_audio close_idle
set_audio-SameState p c b w = ground arith

abbrev pub captures : Result VideoDevice → Bool
captures (err e) = false
captures (ok d) = has_encoding d.dir

module _ (p : Pjlib) (capture_id : ℤ) where
  store_capture-same :
      (acc : ℤ) (r : Result AccConfig) (w : World)
      → (store_capture p acc capture_id r w).1
        ≡ record w { history = (store_capture p acc capture_id r w).1.history }
  unfolding store_capture
  store_capture-same acc (err e) w = refl
  store_capture-same acc (ok cfg) w = ground arith

  update_account-same :
      (w : World)
      → (update_account p capture_id w).1
        ≡ record w { history = (update_account p capture_id w).1.history }
  unfolding update_account
  update_account-same w =
      let h = acc_get_config w.acc_id ∷ pool_create ∷ w.history in
      ground (arith, store_capture-same w.acc_id (p.acc_get_config h) (record w { history = h }))

  unfoldable pub Selects : Result VideoDevice → World → Status × World → Type 0
  Selects info w (status, v) =
      (status ≡ (if captures info then success else failure einval))
      × (v ≡ record w {
        video_capture_id = if captures info then capture_id else w.video_capture_id;
        history = v.history;
      })

  select_capture-Selects :
      (r : Result VideoDevice) (w : World) → Selects r w (select_capture p capture_id r w)
  unfolding select_capture Selects
  select_capture-Selects (err e) w = (refl, refl)
  select_capture-Selects (ok d) w = elim (Bool-cases (has_encoding d.dir)) [
    | inl e ↦ rw e (refl, update_account-same (record w { video_capture_id = capture_id }))
    | inr e ↦ rw e (refl, refl)
  ]

  select_capture-rejects :
      (r : Result VideoDevice) (w : World)
      → captures r ≡ false
      → (select_capture p capture_id r w).1.history ≡ w.history
  unfolding select_capture
  select_capture-rejects (err e) w h = refl
  select_capture-rejects (ok d) w h = rw h refl

-- Choosing the video capture device succeeds exactly where pjsua-lib knows the device and it can
-- capture, and then it is the one selected; otherwise the parameters are invalid, the selection stays
-- and nothing is asked for but the device's information. No other state changes.
pub set_video_capture-Selects :
    (p : Pjlib) (capture_id : ℤ) (w : World)
    → let h = vid_dev_get_info capture_id ∷ w.history in
      let r = set_video_capture p capture_id w in
      Selects p capture_id (p.vid_dev_get_info h) w r
      × (captures (p.vid_dev_get_info h) ≡ false → r.1.history ≡ h)
unfolding set_video_capture Selects
set_video_capture-Selects p capture_id w =
    let h = vid_dev_get_info capture_id ∷ w.history in
    (
      select_capture-Selects p capture_id (p.vid_dev_get_info h) (record w { history = h }),
      select_capture-rejects p capture_id (p.vid_dev_get_info h) (record w { history = h }),
    )
