-- ===== src/Main/Stages/Parts.antt =====
-- The parts of main() up to the control socket.
use pjsocky.Main.{
  checked, library_created, pool_created, create_library, events_create, fast_timers, init_library,
  null_sound, start_library, is_given,
}
use pjsocky.Main.Codecs.{
  Wanted, override_codec, override_codecs, enumerated, apply_video_format_override, wanted_format,
  set_format,
}
use pjsocky.Main.Config.{ua_config, log_config, media_config}
use pjsocky.Main.Stages.{created, initialised, started, absent, is_live, on_success}
use pjsocky.Main.Stages.Steps.{
  At, Reached, followed-Reached, At-call, At-stays, fail-Reached, checked-Reached, checked-stays,
}
use pjsocky.Platform.{
  Platform, Trace, CodecParam, ask, pjsua_create, startup_pool, mutex_create, tsx_set_timers,
  pjsua_init, vid_register_factory, vid_enum_codecs, vid_codec_get_param, vid_codec_set_param,
  transport_create, pjsua_start, aud_dev_count, set_null_snd_dev,
}
use pjsocky.Prelude.{
  String, ℕ, refl, ap, Bool, true, false, ◌&&◌, List, [], ◌∷◌, ◌==◌, if-elim, Status, Result,
  failure, success, ok, err,
}

module _ (p : Platform) (path : List ℕ) where
  library_created-Reached :
      (status : Status) (h : Trace)
      → At p path (on_success status created absent) h
      → Reached p path created (library_created (status, h))
  unfolding library_created
  library_created-Reached success h at = at
  library_created-Reached (failure e) h at =
      (refl, at.ordered, at.guarded, ap is_live at.stage_is, at.no_socket)

  pool_created-Reached :
      (had : Bool) (h : Trace)
      → At p path created h
      → Reached p path created (pool_created (had, h))
  unfolding pool_created
  pool_created-Reached true h at = at
  pool_created-Reached false h at = fail-Reached p path (Unit {0}) created created h at refl

  pub create_library-Reached :
      (h : Trace) → At p path absent h → Reached p path created (create_library p h)
  unfolding create_library events_create
  create_library-Reached h at =
      let status = p.pjsua_create (pjsua_create ∷ h) in
      followed-Reached p path created created (library_created (status, pjsua_create ∷ h)) _
        (library_created-Reached status (pjsua_create ∷ h) (
          At-call p path pjsua_create absent (on_success status created absent) h at refl
            (ap (on_success status created) at.stage_is) refl))
        (λ u h' at'.
          followed-Reached p path created created
            (pool_created (ask startup_pool p.startup_pool h')) _
            (pool_created-Reached (p.startup_pool (startup_pool ∷ h')) (startup_pool ∷ h')
              (At-stays p path startup_pool created h' at' refl refl refl))
            (λ v h'' at''.
              checked-stays p path created (p.mutex_create (mutex_create ∷ h''))
                (mutex_create ∷ h'') (At-stays p path mutex_create created h'' at'' refl refl refl)
                refl))

  fast_timers-At : (h : Trace) → At p path created h → At p path created (fast_timers p h)
  unfolding fast_timers
  fast_timers-At h at =
      if-elim (At p path created) (is_given (p.getenv "PJSOCKY_TEST_FAST_TIMERS"))
        (λ g. At-stays p path (tsx_set_timers 100 0 0 1000) created h at refl refl refl) (λ g. at)

  override_codec-At :
      (wanted : Wanted) (codec : String) (r : Result CodecParam) (h : Trace)
      → At p path initialised h
      → At p path initialised (override_codec p wanted codec (r, h))
  unfolding override_codec
  override_codec-At wanted codec (err e) h at = at
  override_codec-At wanted codec (ok param) h at =
      At-stays p path (vid_codec_set_param codec (set_format wanted param)) initialised h at refl
        refl refl

  override_codecs-At :
      (wanted : Wanted) (codecs : List String) (h : Trace)
      → At p path initialised h
      → At p path initialised (override_codecs p wanted codecs h)
  unfolding override_codecs
  override_codecs-At wanted [] h at = at
  override_codecs-At wanted (codec ∷ codecs) h at =
      let q = vid_codec_get_param codec in
      override_codecs-At wanted codecs
        (override_codec p wanted codec (p.vid_codec_get_param (q ∷ h), q ∷ h))
        (override_codec-At wanted codec (p.vid_codec_get_param (q ∷ h)) (q ∷ h)
          (At-stays p path q initialised h at refl refl refl))

  enumerated-At :
      (wanted : Wanted) (r : Result (List String)) (h : Trace)
      → At p path initialised h
      → At p path initialised (enumerated p wanted (r, h))
  unfolding enumerated
  enumerated-At wanted (err e) h at = at
  enumerated-At wanted (ok codecs) h at = override_codecs-At wanted codecs h at

  override-At :
      (h : Trace)
      → At p path initialised h
      → At p path initialised (apply_video_format_override p h)
  unfolding apply_video_format_override
  override-At h at =
      let q = vid_enum_codecs p.max_codecs in
      let w = wanted_format p in
      if-elim (At p path initialised) (w.width == 0 && w.fps == 0) (λ g. at)
        (λ g.
          enumerated-At w (p.vid_enum_codecs (q ∷ h)) (q ∷ h)
            (At-stays p path q initialised h at refl refl refl))

  pub init_library-Reached :
      (h : Trace) → At p path created h → Reached p path initialised (init_library p h)
  unfolding init_library
  init_library-Reached h at =
      let t = fast_timers p h in
      let q = pjsua_init (ua_config p) (log_config p) (media_config p) in
      let status = p.pjsua_init (q ∷ t) in
      followed-Reached p path initialised initialised (checked (status, q ∷ t)) _
        (checked-Reached p path created initialised status (q ∷ t)
          (At-call p path q created (on_success status initialised created) t (fast_timers-At h at)
            refl (ap (on_success status initialised) (fast_timers-At h at).stage_is) refl)
          refl)
        (λ u h' at'.
          followed-Reached p path initialised initialised
            (checked (ask vid_register_factory p.vid_register_factory h')) _
            (checked-stays p path initialised (p.vid_register_factory (vid_register_factory ∷ h'))
              (vid_register_factory ∷ h')
              (At-stays p path vid_register_factory initialised h' at' refl refl refl) refl)
            (λ v h'' at''. override-At h'' at''))

  null_sound-At :
      (count : ℕ) (h : Trace) → At p path started h → At p path started (null_sound p (count, h))
  unfolding null_sound
  null_sound-At count h at =
      if-elim (At p path started) (count == 0)
        (λ g. At-stays p path set_null_snd_dev started h at refl refl refl) (λ g. at)

  pub start_library-Reached :
      (h : Trace) → At p path initialised h → Reached p path started (start_library p h)
  unfolding start_library
  start_library-Reached h at =
      followed-Reached p path initialised started
        (checked (ask transport_create p.transport_create h)) _
        (checked-stays p path initialised (p.transport_create (transport_create ∷ h))
          (transport_create ∷ h) (At-stays p path transport_create initialised h at refl refl refl)
          refl)
        (λ u h' at'.
          let status = p.pjsua_start (pjsua_start ∷ h') in
          followed-Reached p path started started (checked (status, pjsua_start ∷ h')) _
            (checked-Reached p path initialised started status (pjsua_start ∷ h')
              (At-call p path pjsua_start initialised (on_success status started initialised) h' at'
                refl (ap (on_success status started) at'.stage_is) refl)
              refl)
            (λ v h'' at''.
              null_sound-At (p.aud_dev_count (aud_dev_count ∷ h'')) (aud_dev_count ∷ h'')
                (At-stays p path aud_dev_count started h'' at'' refl refl refl)))
