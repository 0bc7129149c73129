-- ===== src/Call/Commands/Said.antt =====
-- A dial says nothing.
use pjsocky.Call.Commands.{dialled, dial, call_setting}
use pjsocky.Protocol.Said.{Silent}
use pjsocky.Pjlib.{Pjlib, make_call, invalid_id}
use pjsocky.World.{World}
use pjsocky.Prelude.{
  String, refl, ◌∙◌, inl, inr, Bool, not, ◌||◌, ◌∷◌, Bool-cases, ℤ, is_equal, Result, ok, err,
}

module _ (p : Pjlib) (uri : String) (with_video : Bool) where
  dialled-Silent : (r : Result ℤ) (w : World) → Silent w (dialled p r w).1
  unfolding dialled
  dialled-Silent (err e) w = refl
  dialled-Silent (ok id) w = refl

  pub dial-Silent : (w : World) → Silent w (dial p uri with_video w).1
  unfolding dial
  dial-Silent w = elim (Bool-cases (is_equal w.acc_id invalid_id || not w.registered)) [
    | inl e ↦ rw e refl
    | inr e ↦
        let v = record w {
          history = make_call w.acc_id uri (call_setting p with_video) ∷ w.history;
        } in
        rw e (dialled-Silent (p.make_call v.history) v ∙ refl)
  ]
