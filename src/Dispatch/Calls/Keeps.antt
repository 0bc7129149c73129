-- ===== src/Dispatch/Calls/Keeps.antt =====
-- What the call.* commands leave alone.
use pjsocky.Call.{is_valid_call_id}
use pjsocky.Call.Commands.{hangup, hangup_all, answer}
use pjsocky.Call.Commands.Keeps.{dial-Frame}
use pjsocky.Call.Info.{
  get_info, get_info-SameState, remote_offered_video, get_rtp_counters, get_rtp_counters-SameState,
}
use pjsocky.Dispatch.Calls.{
  dial_with, cmd_call_dial, hangup_with, cmd_call_hangup, cmd_call_hangup_all, add_rtp_counters,
  info_known, info_with, cmd_call_get_info, answer_video, answer_known, answer_with,
  cmd_call_answer,
}
use pjsocky.Dispatch.Frame.{Frame, Frame-trans, SameState-Frame}
use pjsocky.Dispatch.Params.{to_unsigned}
use pjsocky.Json.{Value}
use pjsocky.Pjlib.{Pjlib, CallInfo, audio, video}
use pjsocky.World.{World}
use pjsocky.Prelude.{String, ℕ, refl, Bool, Option, none, some, arith, ℤ, Result, ok, err}

module _ (p : Pjlib) where
  hangup-Frame : (id : ℤ) (code : ℕ) (w : World) → Frame w (hangup p id code w).1
  unfolding hangup is_valid_call_id
  hangup-Frame id code w = ground arith

  answer-Frame : (id : ℤ) (code : ℕ) (v : Bool) (w : World) → Frame w (answer p id code v w).1
  unfolding answer is_valid_call_id
  answer-Frame id code v w = ground arith

  dial_with-Frame : (uri : Option String) (v : Bool) (w : World) → Frame w (dial_with p uri v w).1
  unfolding dial_with
  dial_with-Frame none v w = refl
  dial_with-Frame (some uri) v w = dial-Frame p uri v w

  hangup_with-Frame : (id : Option ℤ) (code : ℤ) (w : World) → Frame w (hangup_with p id code w).1
  unfolding hangup_with
  hangup_with-Frame none code w = refl
  hangup_with-Frame (some id) code w = hangup-Frame id (to_unsigned code) w

  counters-Frame :
      (id : ℤ) (w : World)
      → Frame w (get_rtp_counters p id video (get_rtp_counters p id audio w).1).1
  counters-Frame id w =
      let v = (get_rtp_counters p id audio w).1 in
      Frame-trans w v _ (SameState-Frame w v (get_rtp_counters-SameState p id audio w))
        (SameState-Frame v _ (get_rtp_counters-SameState p id video v))

  info_known-Frame : (id : ℤ) (r : Result CallInfo) (w : World) → Frame w (info_known p id r w).1
  unfolding info_known add_rtp_counters
  info_known-Frame id (err e) w = refl
  info_known-Frame id (ok info) w = counters-Frame id w

  info_with-Frame : (id : Option ℤ) (w : World) → Frame w (info_with p id w).1
  unfolding info_with
  info_with-Frame none w = refl
  info_with-Frame (some id) w =
      let r = get_info p id w in
      Frame-trans w r.1 _ (SameState-Frame w r.1 (get_info-SameState p id w))
        (info_known-Frame id r.0 r.1)

  answer_known-Frame :
      (id code : ℤ) (r : Result Bool) (w : World) → Frame w (answer_known p id code r w).1
  unfolding answer_known
  answer_known-Frame id code (err e) w = refl
  answer_known-Frame id code (ok v) w = answer-Frame id (to_unsigned code) v w

  answer_video-Frame : (id : ℤ) (v : Option Bool) (w : World) → Frame w (answer_video p id v w).1
  unfolding answer_video remote_offered_video
  answer_video-Frame id none w = SameState-Frame w _ (get_info-SameState p id w)
  answer_video-Frame id (some v) w = refl

  answer_with-Frame :
      (id : Option ℤ) (code : ℤ) (v : Option Bool) (w : World)
      → Frame w (answer_with p id code v w).1
  unfolding answer_with
  answer_with-Frame none code v w = refl
  answer_with-Frame (some id) code v w =
      let r = answer_video p id v w in
      Frame-trans w r.1 _ (answer_video-Frame id v w) (answer_known-Frame id code r.0 r.1)

  pub cmd_call_dial-Frame :
      (params : Option Value) (w : World) → Frame w (cmd_call_dial p params w).1
  unfolding cmd_call_dial
  cmd_call_dial-Frame params w = dial_with-Frame _ _ w

  pub cmd_call_hangup-Frame :
      (params : Option Value) (w : World) → Frame w (cmd_call_hangup p params w).1
  unfolding cmd_call_hangup
  cmd_call_hangup-Frame params w = hangup_with-Frame _ _ w

  pub cmd_call_hangup_all-Frame :
      (params : Option Value) (w : World) → Frame w (cmd_call_hangup_all p params w).1
  unfolding cmd_call_hangup_all hangup_all
  cmd_call_hangup_all-Frame params w = ground arith

  pub cmd_call_get_info-Frame :
      (params : Option Value) (w : World) → Frame w (cmd_call_get_info p params w).1
  unfolding cmd_call_get_info
  cmd_call_get_info-Frame params w = info_with-Frame _ w

  pub cmd_call_answer-Frame :
      (params : Option Value) (w : World) → Frame w (cmd_call_answer p params w).1
  unfolding cmd_call_answer
  cmd_call_answer-Frame params w = answer_with-Frame _ _ _ w
