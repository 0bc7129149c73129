-- ===== src/Dispatch/Calls/Said.antt =====
-- The call.* commands say nothing on their own.
use pjsocky.Call.Info.Said.{get_info-Silent, get_rtp_counters-Silent}
use pjsocky.Call.{is_valid_call_id}
use pjsocky.Call.Commands.{hangup, hangup_all, answer}
use pjsocky.Call.Commands.Said.{dial-Silent}
use pjsocky.Call.Info.{get_info, remote_offered_video, get_rtp_counters}
use pjsocky.Dispatch.Calls.{
  dial_with, cmd_call_dial, hangup_with, cmd_call_hangup, cmd_call_hangup_all, add_rtp_counters,
  info_known, info_with, cmd_call_get_info, answer_video, answer_known, answer_with,
  cmd_call_answer,
}
use pjsocky.Protocol.Said.{Silent}
use pjsocky.Dispatch.Params.{to_unsigned}
use pjsocky.Json.{Value}
use pjsocky.Pjlib.{Pjlib, CallInfo, audio, video}
use pjsocky.World.{World}
use pjsocky.Prelude.{String, ℕ, refl, ◌∙◌, Bool, Option, none, some, arith, ℤ, Result, ok, err}

module _ (p : Pjlib) where
  hangup-Silent : (id : ℤ) (code : ℕ) (w : World) → Silent w (hangup p id code w).1
  unfolding hangup is_valid_call_id
  hangup-Silent id code w = ground arith

  answer-Silent : (id : ℤ) (code : ℕ) (v : Bool) (w : World) → Silent w (answer p id code v w).1
  unfolding answer is_valid_call_id
  answer-Silent id code v w = ground arith

  dial_with-Silent : (uri : Option String) (v : Bool) (w : World) → Silent w (dial_with p uri v w).1
  unfolding dial_with
  dial_with-Silent none v w = refl
  dial_with-Silent (some uri) v w = dial-Silent p uri v w

  hangup_with-Silent : (id : Option ℤ) (code : ℤ) (w : World) → Silent w (hangup_with p id code w).1
  unfolding hangup_with
  hangup_with-Silent none code w = refl
  hangup_with-Silent (some id) code w = hangup-Silent id (to_unsigned code) w

  counters-Silent :
      (id : ℤ) (w : World)
      → Silent w (get_rtp_counters p id video (get_rtp_counters p id audio w).1).1
  counters-Silent id w =
      let v = (get_rtp_counters p id audio w).1 in
      get_rtp_counters-Silent p id video v ∙ get_rtp_counters-Silent p id audio w

  info_known-Silent : (id : ℤ) (r : Result CallInfo) (w : World) → Silent w (info_known p id r w).1
  unfolding info_known add_rtp_counters
  info_known-Silent id (err e) w = refl
  info_known-Silent id (ok info) w = counters-Silent id w

  info_with-Silent : (id : Option ℤ) (w : World) → Silent w (info_with p id w).1
  unfolding info_with
  info_with-Silent none w = refl
  info_with-Silent (some id) w =
      let r = get_info p id w in info_known-Silent id r.0 r.1 ∙ get_info-Silent p id w

  answer_known-Silent :
      (id code : ℤ) (r : Result Bool) (w : World) → Silent w (answer_known p id code r w).1
  unfolding answer_known
  answer_known-Silent id code (err e) w = refl
  answer_known-Silent id code (ok v) w = answer-Silent id (to_unsigned code) v w

  answer_video-Silent : (id : ℤ) (v : Option Bool) (w : World) → Silent w (answer_video p id v w).1
  unfolding answer_video remote_offered_video
  answer_video-Silent id none w = get_info-Silent p id w
  answer_video-Silent id (some v) w = refl

  answer_with-Silent :
      (id : Option ℤ) (code : ℤ) (v : Option Bool) (w : World)
      → Silent w (answer_with p id code v w).1
  unfolding answer_with
  answer_with-Silent none code v w = refl
  answer_with-Silent (some id) code v w =
      let r = answer_video p id v w in
      answer_known-Silent id code r.0 r.1 ∙ answer_video-Silent id v w

  pub cmd_call_dial-Silent :
      (params : Option Value) (w : World) → Silent w (cmd_call_dial p params w).1
  unfolding cmd_call_dial
  cmd_call_dial-Silent params w = dial_with-Silent _ _ w

  pub cmd_call_hangup-Silent :
      (params : Option Value) (w : World) → Silent w (cmd_call_hangup p params w).1
  unfolding cmd_call_hangup
  cmd_call_hangup-Silent params w = hangup_with-Silent _ _ w

  pub cmd_call_hangup_all-Silent :
      (params : Option Value) (w : World) → Silent w (cmd_call_hangup_all p params w).1
  unfolding cmd_call_hangup_all hangup_all
  cmd_call_hangup_all-Silent params w = ground arith

  pub cmd_call_get_info-Silent :
      (params : Option Value) (w : World) → Silent w (cmd_call_get_info p params w).1
  unfolding cmd_call_get_info
  cmd_call_get_info-Silent params w = info_with-Silent _ w

  pub cmd_call_answer-Silent :
      (params : Option Value) (w : World) → Silent w (cmd_call_answer p params w).1
  unfolding cmd_call_answer
  cmd_call_answer-Silent params w = answer_with-Silent _ _ _ w
