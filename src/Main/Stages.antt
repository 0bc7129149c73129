-- ===== src/Main/Stages.antt =====
-- The order in which pjsua-lib wants to be called, over the traces of main().
pub mod Steps
pub mod Parts
pub mod Socket
pub mod Finish
use pjsocky.Platform.{
  Platform, Trace, Action, pjsua_create, startup_pool, mutex_create, tsx_set_timers, pjsua_init,
  vid_register_factory, vid_enum_codecs, vid_codec_get_param, vid_codec_set_param, transport_create,
  pjsua_start, aud_dev_count, set_null_snd_dev, socket, unlink, bind, chmod, listen, close,
  pjsua_destroy,
}
use pjsocky.Prelude.{◌≡◌, Bool, true, false, [], ◌∷◌, Status, failure, success}

-- What there is of pjsua-lib.
pub data Stage : Type 0 where
  absent created initialised started destroyed : Stage

abbrev pub same_stage : Stage → Stage → Bool
same_stage absent absent = true
same_stage created created = true
same_stage initialised initialised = true
same_stage started started = true
same_stage destroyed destroyed = true
same_stage _ _ = false

-- There is something to destroy.
abbrev pub is_live : Stage → Bool
is_live created = true
is_live initialised = true
is_live started = true
is_live _ = false

-- The stage at which a call is to be made: configuration before pjsua_init(), devices, codecs and
-- transports after it, and the control socket, through which calls can be made, after pjsua_start().
abbrev pub is_allowed : Action → Stage → Bool
is_allowed pjsua_create s = same_stage absent s
is_allowed startup_pool s = same_stage created s
is_allowed mutex_create s = same_stage created s
is_allowed (tsx_set_timers t1 t2 t4 td) s = same_stage created s
is_allowed (pjsua_init ua log media) s = same_stage created s
is_allowed vid_register_factory s = same_stage initialised s
is_allowed (vid_enum_codecs n) s = same_stage initialised s
is_allowed (vid_codec_get_param codec) s = same_stage initialised s
is_allowed (vid_codec_set_param codec param) s = same_stage initialised s
is_allowed transport_create s = same_stage initialised s
is_allowed pjsua_start s = same_stage initialised s
is_allowed aud_dev_count s = same_stage started s
is_allowed set_null_snd_dev s = same_stage started s
is_allowed socket s = same_stage started s
is_allowed (unlink path) s = same_stage started s
is_allowed (bind sock path) s = same_stage started s
is_allowed (chmod path mode) s = same_stage started s
is_allowed (listen sock backlog) s = same_stage started s
is_allowed (close sock) s = same_stage started s
is_allowed pjsua_destroy s = is_live s

abbrev pub on_success : Status → Stage → Stage → Stage
on_success success next now = next
on_success (failure e) next now = now

module _ (p : Platform) where
  abbrev pub stage : Trace → Stage
  stage [] = absent
  stage (pjsua_create ∷ h) = on_success (p.pjsua_create (pjsua_create ∷ h)) created (stage h)
  stage (pjsua_init ua log media ∷ h) =
      on_success (p.pjsua_init (pjsua_init ua log media ∷ h)) initialised (stage h)
  stage (pjsua_start ∷ h) = on_success (p.pjsua_start (pjsua_start ∷ h)) started (stage h)
  stage (pjsua_destroy ∷ h) = destroyed
  stage (_ ∷ h) = stage h

  -- Every call of the trace was made at its stage.
  abbrev pub Ordered : Trace → Type 0
  Ordered [] = Unit {0}
  Ordered (q ∷ h) = (is_allowed q (stage h) ≡ true) × Ordered h
