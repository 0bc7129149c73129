-- ===== src/Call/Info/Words.antt =====
-- The names of the states of a call.
use pjsocky.Call.Info.{state_str}
use pjsocky.Json.{string}
use pjsocky.Pjlib.{
  InvState, null, calling, incoming, early, connecting, confirmed, disconnected, unknown,
}
use pjsocky.Protocol.{fits, word, call_states}
use pjsocky.Prelude.{◌≡◌, refl, true}

pub state_str-word : (s : InvState) → fits (word call_states) (string (state_str s)) ≡ true
unfolding state_str
state_str-word null = refl
state_str-word calling = refl
state_str-word incoming = refl
state_str-word early = refl
state_str-word connecting = refl
state_str-word confirmed = refl
state_str-word disconnected = refl
state_str-word unknown = refl
