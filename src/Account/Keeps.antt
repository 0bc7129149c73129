-- ===== src/Account/Keeps.antt =====
-- What the account's commands leave alone.
use pjsocky.Events.Push.{push-SameState}
use pjsocky.Account.{
  reg_state_known, on_reg_state2, build_reg_state_data, configure, added, account_config,
  resolve_default_vid_cap_dev, register, unregister, set_registration, remove, deleted,
}
use pjsocky.Account.Machine.{configure-absent, configure-present}
use pjsocky.Device.{list_video}
use pjsocky.Dispatch.Frame.{Frame, Frame-trans, SameState-Frame}
use pjsocky.Pjlib.{Pjlib, AccInfo, acc_get_info, acc_add, invalid_id}
use pjsocky.World.{World}
use pjsocky.Prelude.{
  String, ◌/◌, ◌≡◌, refl, inl, inr, Bool, false, ◌&&◌, ◌∷◌, arith, ◌==◌, Bool-cases, ℤ, is_equal,
  Result, ok, err,
}

module _ (p : Pjlib) where
  resolve-SameState :
      (w : World)
      → (resolve_default_vid_cap_dev p w).1
        ≡ record w { history = (resolve_default_vid_cap_dev p w).1.history }
  unfolding resolve_default_vid_cap_dev list_video
  resolve-SameState w = ground arith

  added-Frame : (r : Result ℤ) (w : World) → Frame w (added p r w).1
  unfolding added
  added-Frame (err e) w = refl
  added-Frame (ok id) w = refl

  pub configure-Frame : (s r u pw re : String) (w : World) → Frame w (configure p s r u pw re w).1
  configure-Frame s r u pw re w = elim (Bool-cases (is_equal w.acc_id invalid_id)) [
    | inl e ↦
        let c = record w { registered = false } in
        let v = resolve_default_vid_cap_dev p c in
        let h = acc_add (account_config p s r u pw re v.0) ∷ v.1.history in
        rw (configure-absent p s r u pw re w e) (
          Frame-trans w c _ refl (
            Frame-trans c v.1 _ (SameState-Frame c v.1 (resolve-SameState c))
              (added-Frame (p.acc_add h) (record (v.1) { history = h }))))
    | inr e ↦ rw (configure-present p s r u pw re w e) refl
  ]

  pub register-Frame : (w : World) → Frame w (register p w).1
  unfolding register set_registration
  register-Frame w = ground arith

  pub unregister-Frame : (w : World) → Frame w (unregister p w).1
  unfolding unregister set_registration
  unregister-Frame w = ground arith

  pub remove-Frame : (w : World) → Frame w (remove p w).1
  unfolding remove deleted
  remove-Frame w = ground arith

  reg_state_known-Frame :
      (renew : Bool) (r : Result AccInfo) (w : World) → Frame w (reg_state_known p renew r w).1
  unfolding reg_state_known
  reg_state_known-Frame renew (err e) w = refl
  reg_state_known-Frame renew (ok info) w =
      let registered = renew && info.status / 100 == 2 in
      let v = record w { registered = registered } in
      SameState-Frame v _ (push-SameState p "reg_state" (build_reg_state_data info registered) v)

  pub on_reg_state2-Frame :
      (acc_id : ℤ) (renew : Bool) (w : World) → Frame w (on_reg_state2 p acc_id renew w).1
  unfolding on_reg_state2
  on_reg_state2-Frame acc_id renew w =
      let v = record w { history = acc_get_info acc_id ∷ w.history } in
      reg_state_known-Frame renew (p.acc_get_info v.history) v
