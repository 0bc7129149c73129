-- ===== src/Dispatch/Daemon/Said.antt =====
-- The commands on the daemon and the account say nothing on their own.
use pjsocky.Account.Said.{configure-Silent, register-Silent, unregister-Silent, remove-Silent}
use pjsocky.Dispatch.Daemon.{
  configure_with, cmd_status_get, cmd_account_configure, cmd_account_register,
  cmd_account_unregister, cmd_account_remove, set_ring_timeout_with, cmd_config_set_ring_timeout,
}
use pjsocky.Call.Commands.{set_ring_timeout}
use pjsocky.Protocol.Said.{Silent}
use pjsocky.Json.{Value}
use pjsocky.Pjlib.{Pjlib}
use pjsocky.World.{World}
use pjsocky.Prelude.{String, refl, Option, none, some, arith, ℤ, pos, negsuc}

module _ (p : Pjlib) where
  configure_with-Silent :
      (s r u pw : Option String) (re : String) (w : World)
      → Silent w (configure_with p s r u pw re w).1
  unfolding configure_with
  configure_with-Silent (some s) (some r) (some u) (some pw) re w = configure-Silent p s r u pw re w
  configure_with-Silent none r u pw re w = refl
  configure_with-Silent (some s) none u pw re w = refl
  configure_with-Silent (some s) (some r) none pw re w = refl
  configure_with-Silent (some s) (some r) (some u) none re w = refl

  set_ring_timeout_with-Silent :
      (n : Option ℤ) (w : World) → Silent w (set_ring_timeout_with p n w).1
  unfolding set_ring_timeout_with set_ring_timeout
  set_ring_timeout_with-Silent none w = refl
  set_ring_timeout_with-Silent (some (pos n)) w = refl
  set_ring_timeout_with-Silent (some (negsuc n)) w = refl

  pub cmd_status_get-Silent :
      (params : Option Value) (w : World) → Silent w (cmd_status_get p params w).1
  unfolding cmd_status_get
  cmd_status_get-Silent params w = ground arith

  pub cmd_account_configure-Silent :
      (params : Option Value) (w : World) → Silent w (cmd_account_configure p params w).1
  unfolding cmd_account_configure
  cmd_account_configure-Silent params w = configure_with-Silent _ _ _ _ _ w

  pub cmd_account_register-Silent :
      (params : Option Value) (w : World) → Silent w (cmd_account_register p params w).1
  unfolding cmd_account_register
  cmd_account_register-Silent params w = register-Silent p w

  pub cmd_account_unregister-Silent :
      (params : Option Value) (w : World) → Silent w (cmd_account_unregister p params w).1
  unfolding cmd_account_unregister
  cmd_account_unregister-Silent params w = unregister-Silent p w

  pub cmd_account_remove-Silent :
      (params : Option Value) (w : World) → Silent w (cmd_account_remove p params w).1
  unfolding cmd_account_remove
  cmd_account_remove-Silent params w = remove-Silent p w

  pub cmd_config_set_ring_timeout-Silent :
      (params : Option Value) (w : World) → Silent w (cmd_config_set_ring_timeout p params w).1
  unfolding cmd_config_set_ring_timeout
  cmd_config_set_ring_timeout-Silent params w = set_ring_timeout_with-Silent _ w
