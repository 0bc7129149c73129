-- ===== src/Account/Said.antt =====
-- The commands of the account say nothing, and what a registration report says.
use pjsocky.Events.Said.{push-Proper}
use pjsocky.Account.{
  reg_state_known, on_reg_state2, build_reg_state_data, configure, added, account_config,
  resolve_default_vid_cap_dev, register, unregister, set_registration, remove, deleted,
}
use pjsocky.Account.Machine.{configure-absent, configure-present}
use pjsocky.Device.{list_video}
use pjsocky.Protocol.Message.{event}
use pjsocky.Protocol.Said.{Silent, Proper}
use pjsocky.Events.{envelope}
use pjsocky.Json.{add_bool, add_string, add_str, add_number, add_member}
use pjsocky.Pjlib.{Pjlib, AccInfo, acc_get_info, acc_add, invalid_id}
use pjsocky.World.{World}
use pjsocky.Prelude.{
  String, ◌/◌, refl, ◌∙◌, inl, inr, Bool, false, ◌&&◌, ◌∷◌, arith, ◌==◌, Bool-cases, ℤ, is_equal,
  Result, ok, err,
}

module _ (p : Pjlib) where
  resolve-Silent : (w : World) → Silent w (resolve_default_vid_cap_dev p w).1
  unfolding resolve_default_vid_cap_dev list_video
  resolve-Silent w = ground arith

  added-Silent : (r : Result ℤ) (w : World) → Silent w (added p r w).1
  unfolding added
  added-Silent (err e) w = refl
  added-Silent (ok id) w = refl

  pub configure-Silent : (s r u pw re : String) (w : World) → Silent w (configure p s r u pw re w).1
  configure-Silent s r u pw re w = elim (Bool-cases (is_equal w.acc_id invalid_id)) [
    | inl e ↦
        let c = record w { registered = false } in
        let v = resolve_default_vid_cap_dev p c in
        let h = acc_add (account_config p s r u pw re v.0) ∷ v.1.history in
        rw (configure-absent p s r u pw re w e)
          (added-Silent (p.acc_add h) (record (v.1) { history = h }) ∙ resolve-Silent c ∙ refl)
    | inr e ↦ rw (configure-present p s r u pw re w e) refl
  ]

  pub register-Silent : (w : World) → Silent w (register p w).1
  unfolding register set_registration
  register-Silent w = ground arith

  pub unregister-Silent : (w : World) → Silent w (unregister p w).1
  unfolding unregister set_registration
  unregister-Silent w = ground arith

  pub remove-Silent : (w : World) → Silent w (remove p w).1
  unfolding remove deleted
  remove-Silent w = ground arith

  reg_state_known-Proper :
      (renew : Bool) (r : Result AccInfo) (w : World)
      → Proper w
      → Proper (reg_state_known p renew r w).1
  unfolding reg_state_known build_reg_state_data envelope add_bool add_string add_str add_number
      add_member
  reg_state_known-Proper renew (err e) w before = before
  reg_state_known-Proper renew (ok info) w before =
      let registered = renew && info.status / 100 == 2 in
      push-Proper p "reg_state" (build_reg_state_data info registered)
        (record w { registered = registered }) (event _ _ refl) before

  -- What a registration report says.
  pub on_reg_state2-Proper :
      (acc_id : ℤ) (renew : Bool) (w : World) → Proper w → Proper (on_reg_state2 p acc_id renew w).1
  unfolding on_reg_state2
  on_reg_state2-Proper acc_id renew w before =
      let v = record w { history = acc_get_info acc_id ∷ w.history } in
      reg_state_known-Proper renew (p.acc_get_info v.history) v before
