-- ===== src/Dispatch/Calls/Typed.antt =====
-- The results of call.*.
use pjsocky.Call.Commands.{dial, hangup, hangup_all, answer}
use pjsocky.Call.Info.{get_info}
use pjsocky.Call.Info.Words.{state_str-word}
use pjsocky.Dispatch.Calls.{
  dial_with, cmd_call_dial, hangup_with, cmd_call_hangup, cmd_call_hangup_all, counters_members,
  add_rtp_counters, info_members, info_known, info_with, cmd_call_get_info, answer_video,
  answer_known, answer_with, cmd_call_answer,
}
use pjsocky.Dispatch.Handler.{id_result}
use pjsocky.Dispatch.Line.{call_dial, call_get_info}
use pjsocky.Dispatch.Params.{to_unsigned}
use pjsocky.Json.{Value, add_member, add_string, add_str, add_number, add_bool}
use pjsocky.Pjlib.{Pjlib, CallInfo, StreamStat}
use pjsocky.Protocol.{nothing, has_one_of, result_fields}
use pjsocky.Protocol.Typed.{Typed, no_result-Typed}
use pjsocky.World.{World}
use pjsocky.Prelude.{
  String, ◌≡◌, refl, Bool, true, Option, none, some, [], ◌∷◌, arith, ℤ, Result, ok, err,
}

module _ (p : Pjlib) where
  dial_id-Typed : (r : Result ℤ) → Typed (result_fields call_dial) (id_result "call_id" r)
  unfolding add_number add_member
  dial_id-Typed (err e) = tt
  dial_id-Typed (ok id) = refl

  dial_with-Typed :
      (uri : Option String) (v : Bool) (w : World)
      → Typed (result_fields call_dial) (dial_with p uri v w).0
  unfolding dial_with
  dial_with-Typed none v w = tt
  dial_with-Typed (some uri) v w = dial_id-Typed (dial p uri v w).0

  hangup_with-Typed :
      (id : Option ℤ) (code : ℤ) (w : World) → Typed (nothing ∷ []) (hangup_with p id code w).0
  unfolding hangup_with
  hangup_with-Typed none code w = tt
  hangup_with-Typed (some id) code w = no_result-Typed (hangup p id (to_unsigned code)) w

  -- Each pair of counters is there or is not.
  counted-Typed :
      (info : CallInfo) (a v : Result StreamStat)
      → has_one_of (result_fields call_get_info) (
          counters_members p "video_tx_packets" "video_rx_packets"
            (counters_members p "audio_tx_packets" "audio_rx_packets" (info_members p info) a)
            v)
        ≡ true
  unfolding counters_members info_members add_string add_str add_number add_bool add_member
  counted-Typed info (ok a) (ok v) = ground (arith, state_str-word info.state)
  counted-Typed info (ok a) (err y) = ground (arith, state_str-word info.state)
  counted-Typed info (err x) (ok v) = ground (arith, state_str-word info.state)
  counted-Typed info (err x) (err y) = ground (arith, state_str-word info.state)

  info_known-Typed :
      (id : ℤ) (r : Result CallInfo) (w : World)
      → Typed (result_fields call_get_info) (info_known p id r w).0
  unfolding info_known add_rtp_counters
  info_known-Typed id (err e) w = tt
  info_known-Typed id (ok info) w = counted-Typed info _ _

  info_with-Typed :
      (id : Option ℤ) (w : World) → Typed (result_fields call_get_info) (info_with p id w).0
  unfolding info_with
  info_with-Typed none w = tt
  info_with-Typed (some id) w = let r = get_info p id w in info_known-Typed id r.0 r.1

  answer_known-Typed :
      (id code : ℤ) (r : Result Bool) (w : World)
      → Typed (nothing ∷ []) (answer_known p id code r w).0
  unfolding answer_known
  answer_known-Typed id code (err e) w = tt
  answer_known-Typed id code (ok v) w = no_result-Typed (answer p id (to_unsigned code) v) w

  answer_with-Typed :
      (id : Option ℤ) (code : ℤ) (v : Option Bool) (w : World)
      → Typed (nothing ∷ []) (answer_with p id code v w).0
  unfolding answer_with
  answer_with-Typed none code v w = tt
  answer_with-Typed (some id) code v w =
      let r = answer_video p id v w in answer_known-Typed id code r.0 r.1

  pub cmd_call_dial-Typed :
      (params : Option Value) (w : World)
      → Typed (result_fields call_dial) (cmd_call_dial p params w).0
  unfolding cmd_call_dial
  cmd_call_dial-Typed params w = dial_with-Typed _ _ w

  pub cmd_call_hangup-Typed :
      (params : Option Value) (w : World) → Typed (nothing ∷ []) (cmd_call_hangup p params w).0
  unfolding cmd_call_hangup
  cmd_call_hangup-Typed params w = hangup_with-Typed _ _ w

  pub cmd_call_hangup_all-Typed :
      (params : Option Value) (w : World) → Typed (nothing ∷ []) (cmd_call_hangup_all p params w).0
  unfolding cmd_call_hangup_all
  cmd_call_hangup_all-Typed params w = no_result-Typed (hangup_all p) w

  pub cmd_call_get_info-Typed :
      (params : Option Value) (w : World)
      → Typed (result_fields call_get_info) (cmd_call_get_info p params w).0
  unfolding cmd_call_get_info
  cmd_call_get_info-Typed params w = info_with-Typed _ w

  pub cmd_call_answer-Typed :
      (params : Option Value) (w : World) → Typed (nothing ∷ []) (cmd_call_answer p params w).0
  unfolding cmd_call_answer
  cmd_call_answer-Typed params w = answer_with-Typed _ _ _ w
