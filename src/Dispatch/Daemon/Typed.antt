-- ===== src/Dispatch/Daemon/Typed.antt =====
-- The results of ping, version.get, status.get, account.* and config.*.
use pjsocky.Account.{configure, register, unregister, remove}
use pjsocky.Dispatch.Daemon.{
  status_state, status_of, cmd_version_get, cmd_status_get, configure_with, cmd_account_configure,
  cmd_account_register, cmd_account_unregister, cmd_account_remove, set_ring_timeout_with,
  cmd_config_set_ring_timeout, cmd_config_get_ring_timeout,
}
use pjsocky.Dispatch.Handler.{id_result}
use pjsocky.Dispatch.Line.{version_get, status_get, account_configure, config_get_ring_timeout}
use pjsocky.Json.{Value, string, Members, add_member, add_string, add_number}
use pjsocky.Pjlib.{Pjlib, AccInfo, invalid_id}
use pjsocky.Protocol.{fits, word, nothing, result_fields}
use pjsocky.Protocol.Typed.{Typed, no_result-Typed}
use pjsocky.Version
use pjsocky.World.{World, account_is_registered, account_get_id, call_get_id}
use pjsocky.Prelude.{
  String, ◌≡◌, refl, true, not, Option, none, some, [], ◌∷◌, if-elim, ℤ, is_equal, pos, negsuc,
  Result, ok, err,
}

module _ (p : Pjlib) where
  pub cmd_version_get-Typed :
      (params : Option Value) (w : World)
      → Typed (result_fields version_get) (cmd_version_get p params w).0
  unfolding cmd_version_get Version.fill add_string add_member
  cmd_version_get-Typed params w = refl

  abbrev InWords : String → Type 0
  InWords s = fits (word ("idle" ∷ "registering" ∷ "registered" ∷ "in_call" ∷ [])) (string s) ≡ true

  status_state-word : (w : World) → InWords (status_state w)
  unfolding status_state
  status_state-word w =
      if-elim InWords (not (is_equal (call_get_id w) invalid_id)) (λ busy. refl)
        (λ idle. if-elim InWords (account_is_registered w) (λ on. refl) (λ off. refl))

  status_of-Typed :
      (w : World) (r : Result AccInfo) → Typed (result_fields status_get) (status_of p w r)
  unfolding status_of add_string add_number add_member
  status_of-Typed w (err e) = tt
  status_of-Typed w (ok info) = rw (status_state-word w)

  pub cmd_status_get-Typed :
      (params : Option Value) (w : World)
      → Typed (result_fields status_get) (cmd_status_get p params w).0
  unfolding cmd_status_get add_string add_number add_member
  cmd_status_get-Typed params w =
      if-elim {A = Result Members × World} (λ r. Typed (result_fields status_get) r.0)
        (is_equal (account_get_id w) invalid_id) (λ e. refl) (λ e. status_of-Typed w _)

  configure_id-Typed :
      (r : Result ℤ) → Typed (result_fields account_configure) (id_result "acc_id" r)
  unfolding add_number add_member
  configure_id-Typed (err e) = tt
  configure_id-Typed (ok id) = refl

  configure_with-Typed :
      (s r u pw : Option String) (re : String) (w : World)
      → Typed (result_fields account_configure) (configure_with p s r u pw re w).0
  unfolding configure_with
  configure_with-Typed (some s) (some r) (some u) (some pw) re w =
      configure_id-Typed (configure p s r u pw re w).0
  configure_with-Typed none r u pw re w = tt
  configure_with-Typed (some s) none u pw re w = tt
  configure_with-Typed (some s) (some r) none pw re w = tt
  configure_with-Typed (some s) (some r) (some u) none re w = tt

  pub cmd_account_configure-Typed :
      (params : Option Value) (w : World)
      → Typed (result_fields account_configure) (cmd_account_configure p params w).0
  unfolding cmd_account_configure
  cmd_account_configure-Typed params w = configure_with-Typed _ _ _ _ _ w

  pub cmd_account_register-Typed :
      (params : Option Value) (w : World) → Typed (nothing ∷ []) (cmd_account_register p params w).0
  unfolding cmd_account_register
  cmd_account_register-Typed params w = no_result-Typed (register p) w

  pub cmd_account_unregister-Typed :
      (params : Option Value) (w : World)
      → Typed (nothing ∷ []) (cmd_account_unregister p params w).0
  unfolding cmd_account_unregister
  cmd_account_unregister-Typed params w = no_result-Typed (unregister p) w

  pub cmd_account_remove-Typed :
      (params : Option Value) (w : World) → Typed (nothing ∷ []) (cmd_account_remove p params w).0
  unfolding cmd_account_remove
  cmd_account_remove-Typed params w = no_result-Typed (remove p) w

  set_ring_timeout_with-Typed :
      (n : Option ℤ) (w : World) → Typed (nothing ∷ []) (set_ring_timeout_with p n w).0
  unfolding set_ring_timeout_with
  set_ring_timeout_with-Typed none w = tt
  set_ring_timeout_with-Typed (some (pos n)) w = refl
  set_ring_timeout_with-Typed (some (negsuc n)) w = tt

  pub cmd_config_set_ring_timeout-Typed :
      (params : Option Value) (w : World)
      → Typed (nothing ∷ []) (cmd_config_set_ring_timeout p params w).0
  unfolding cmd_config_set_ring_timeout
  cmd_config_set_ring_timeout-Typed params w = set_ring_timeout_with-Typed _ w

  pub cmd_config_get_ring_timeout-Typed :
      (params : Option Value) (w : World)
      → Typed (result_fields config_get_ring_timeout) (cmd_config_get_ring_timeout p params w).0
  unfolding cmd_config_get_ring_timeout add_number add_member
  cmd_config_get_ring_timeout-Typed params w = refl
