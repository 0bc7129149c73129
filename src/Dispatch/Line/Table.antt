-- ===== src/Dispatch/Line/Table.antt =====
-- The command table: which name finds which command.
use pjsocky.Dispatch.Line.{
  Command, ping, version_get, status_get, account_configure, account_register, account_unregister,
  account_remove, device_list_audio, device_list_video, device_set_audio, device_set_video,
  call_dial, call_hangup, call_hangup_all, call_get_info, call_answer, config_set_ring_timeout,
  config_get_ring_timeout, im_send, im_typing, table, find_in, find_cmd,
}
use pjsocky.Prelude.{
  String, str_eq, eq_iff, ◌≡◌, refl, ap, ◌∙◌, ◌↔◌, inl, inr, true, false, some, List, [], ◌∷◌,
  arith, Bool-cases,
}

-- The name of each command in the protocol.
abbrev pub name_of : Command → String
name_of ping = "ping"
name_of version_get = "version.get"
name_of status_get = "status.get"
name_of account_configure = "account.configure"
name_of account_register = "account.register"
name_of account_unregister = "account.unregister"
name_of account_remove = "account.remove"
name_of device_list_audio = "device.list_audio"
name_of device_list_video = "device.list_video"
name_of device_set_audio = "device.set_audio"
name_of device_set_video = "device.set_video"
name_of call_dial = "call.dial"
name_of call_hangup = "call.hangup"
name_of call_hangup_all = "call.hangup_all"
name_of call_get_info = "call.get_info"
name_of call_answer = "call.answer"
name_of config_set_ring_timeout = "config.set_ring_timeout"
name_of config_get_ring_timeout = "config.get_ring_timeout"
name_of im_send = "im.send"
name_of im_typing = "im.typing"

-- The entries carry their commands' names.
abbrev AreNamed : List (String × Command) → Type 0
AreNamed [] = Unit {0}
AreNamed ((k, c) ∷ entries) = (k ≡ name_of c) × AreNamed entries

find_cmd-name_of : (c : Command) → find_cmd (name_of c) ≡ some c
unfolding find_cmd
find_cmd-name_of ping = refl
find_cmd-name_of version_get = refl
find_cmd-name_of status_get = refl
find_cmd-name_of account_configure = refl
find_cmd-name_of account_register = refl
find_cmd-name_of account_unregister = refl
find_cmd-name_of account_remove = refl
find_cmd-name_of device_list_audio = refl
find_cmd-name_of device_list_video = refl
find_cmd-name_of device_set_audio = refl
find_cmd-name_of device_set_video = refl
find_cmd-name_of call_dial = refl
find_cmd-name_of call_hangup = refl
find_cmd-name_of call_hangup_all = refl
find_cmd-name_of call_get_info = refl
find_cmd-name_of call_answer = refl
find_cmd-name_of config_set_ring_timeout = refl
find_cmd-name_of config_get_ring_timeout = refl
find_cmd-name_of im_send = refl
find_cmd-name_of im_typing = refl

-- An entry is found only under its own name.
find_in-name_of :
    (entries : List (String × Command)) (s : String) (c : Command)
    → AreNamed entries
    → find_in entries s ≡ some c
    → s ≡ name_of c
unfolding find_in
find_in-name_of [] s c good e = cc
find_in-name_of ((k, d) ∷ entries) s c good e = elim (Bool-cases (str_eq s k)) [
  | inl h ↦ (eq_iff s k).0 h ∙ good.0 ∙ ap name_of (same_entry h)
  | inr h ↦ find_in-name_of entries s c good.1 (other_entry h)
]
  where
    same_entry : str_eq s k ≡ true → d ≡ c
    same_entry h = ground (arith, e)

    other_entry : str_eq s k ≡ false → find_in entries s ≡ some c
    other_entry h = ground (arith, e)

named : AreNamed table
named = (
  refl,
  (
    refl,
    (
      refl,
      (
        refl,
        (
          refl,
          (
            refl,
            (
              refl,
              (
                refl,
                (
                  refl,
                  (
                    refl,
                    (
                      refl,
                      (refl, (refl, (refl, (refl, (refl, (refl, (refl, (refl, (refl, tt))))))))),
                    ),
                  ),
                ),
              ),
            ),
          ),
        ),
      ),
    ),
  ),
)

-- A name finds a command exactly if it is the command's own: each of the twenty is found under its
-- name, no two share one, and any other string finds nothing.
pub find_cmd_iff : (s : String) (c : Command) → (find_cmd s ≡ some c) ↔ (s ≡ name_of c)
unfolding find_cmd
find_cmd_iff s c =
    ((λ e. find_in-name_of table s c named e), (λ e. ap find_cmd e ∙ find_cmd-name_of c))
