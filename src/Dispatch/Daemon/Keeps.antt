-- ===== src/Dispatch/Daemon/Keeps.antt =====
-- What the commands on the daemon and the account leave alone.
use pjsocky.Account.Keeps.{configure-Frame, register-Frame, unregister-Frame, remove-Frame}
use pjsocky.Dispatch.Daemon.{
  configure_with, cmd_status_get, cmd_account_configure, cmd_account_register,
  cmd_account_unregister, cmd_account_remove, set_ring_timeout_with, cmd_config_set_ring_timeout,
}
use pjsocky.Call.Commands.{set_ring_timeout}
use pjsocky.Dispatch.Frame.{Frame}
use pjsocky.Json.{Value}
use pjsocky.Pjlib.{Pjlib}
use pjsocky.World.{World}
use pjsocky.Prelude.{String, refl, Option, none, some, arith, ℤ, pos, negsuc}

module _ (p : Pjlib) where
  configure_with-Frame :
      (s r u pw : Option String) (re : String) (w : World)
      → Frame w (configure_with p s r u pw re w).1
  unfolding configure_with
  configure_with-Frame (some s) (some r) (some u) (some pw) re w = configure-Frame p s r u pw re w
  configure_with-Frame none r u pw re w = refl
  configure_with-Frame (some s) none u pw re w = refl
  configure_with-Frame (some s) (some r) none pw re w = refl
  configure_with-Frame (some s) (some r) (some u) none re w = refl

  set_ring_timeout_with-Frame : (n : Option ℤ) (w : World) → Frame w (set_ring_timeout_with p n w).1
  unfolding set_ring_timeout_with set_ring_timeout
  set_ring_timeout_with-Frame none w = refl
  set_ring_timeout_with-Frame (some (pos n)) w = refl
  set_ring_timeout_with-Frame (some (negsuc n)) w = refl

  pub cmd_status_get-Frame :
      (params : Option Value) (w : World) → Frame w (cmd_status_get p params w).1
  unfolding cmd_status_get
  cmd_status_get-Frame params w = ground arith

  pub cmd_account_configure-Frame :
      (params : Option Value) (w : World) → Frame w (cmd_account_configure p params w).1
  unfolding cmd_account_configure
  cmd_account_configure-Frame params w = configure_with-Frame _ _ _ _ _ w

  pub cmd_account_register-Frame :
      (params : Option Value) (w : World) → Frame w (cmd_account_register p params w).1
  unfolding cmd_account_register
  cmd_account_register-Frame params w = register-Frame p w

  pub cmd_account_unregister-Frame :
      (params : Option Value) (w : World) → Frame w (cmd_account_unregister p params w).1
  unfolding cmd_account_unregister
  cmd_account_unregister-Frame params w = unregister-Frame p w

  pub cmd_account_remove-Frame :
      (params : Option Value) (w : World) → Frame w (cmd_account_remove p params w).1
  unfolding cmd_account_remove
  cmd_account_remove-Frame params w = remove-Frame p w

  pub cmd_config_set_ring_timeout-Frame :
      (params : Option Value) (w : World) → Frame w (cmd_config_set_ring_timeout p params w).1
  unfolding cmd_config_set_ring_timeout
  cmd_config_set_ring_timeout-Frame params w = set_ring_timeout_with-Frame _ w
