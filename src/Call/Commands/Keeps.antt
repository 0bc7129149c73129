-- ===== src/Call/Commands/Keeps.antt =====
-- What a dial leaves alone, and what it needs.
use pjsocky.Call.Commands.{dialled, dial, call_setting}
use pjsocky.Dispatch.Frame.{Frame, Frame-trans}
use pjsocky.Pjlib.{Pjlib, make_call, invalid_id}
use pjsocky.World.{World}
use pjsocky.Prelude.{
  String, refl, inl, inr, Bool, not, ◌||◌, ◌∷◌, Bool-cases, ℤ, is_equal, Result, ok, err,
}

module _ (p : Pjlib) (uri : String) (with_video : Bool) where
  dialled-Frame : (r : Result ℤ) (w : World) → Frame w (dialled p r w).1
  unfolding dialled
  dialled-Frame (err e) w = refl
  dialled-Frame (ok id) w = refl

  pub dial-Frame : (w : World) → Frame w (dial p uri with_video w).1
  unfolding dial
  dial-Frame w = elim (Bool-cases (is_equal w.acc_id invalid_id || not w.registered)) [
    | inl e ↦ rw e refl
    | inr e ↦
        let v = record w {
          history = make_call w.acc_id uri (call_setting p with_video) ∷ w.history;
        } in
        rw e (Frame-trans w v _ refl (dialled-Frame (p.make_call v.history) v))
  ]
