-- ===== src/Dispatch/Calls.antt =====
-- src/proto/dispatch.c: the call.* commands.
pub mod Keeps
pub mod Said
pub mod Typed
use pjsocky.Dispatch.Handler.{Handler, no_result, invalid_params, id_result}
use pjsocky.Call.Commands.{dial, hangup, hangup_all, answer}
use pjsocky.Call.Info.{has_active, state_str, get_info, remote_offered_video, get_rtp_counters}
use pjsocky.Dispatch.Params.{
  get_string_member, get_bool_member, get_int_member, or_default, to_unsigned,
}
use pjsocky.Json.{Members, end, add_bool, add_string, add_str, add_number}
use pjsocky.Number.Defs.{of_int, of_unsigned}
use pjsocky.Pjlib.{Pjlib, CallInfo, MediaType, audio, video, StreamStat}
use pjsocky.World.{M, pure}
use pjsocky.Prelude.{String, Bool, false, Option, none, some, ℤ, pos, Result, einval, ok, err}

module _ (p : Pjlib) where
  dial_with : Option String → Bool → M (Result Members)
  dial_with none with_video w = (err einval, w)
  dial_with (some uri) with_video w =
      let r = dial p uri with_video w in (id_result "call_id" r.0, r.1)

  unfoldable pub cmd_call_dial : Handler
  unfolding dial_with
  cmd_call_dial params =
      dial_with (get_string_member params "uri") (or_default (get_bool_member params "video") false)

  hangup_with : Option ℤ → ℤ → M (Result Members)
  hangup_with none code = invalid_params
  hangup_with (some id) code = no_result (hangup p id (to_unsigned code))

  unfoldable pub cmd_call_hangup : Handler
  unfolding hangup_with
  cmd_call_hangup params =
      hangup_with (get_int_member p params "call_id")
        (or_default (get_int_member p params "code") (pos 486))

  unfoldable pub cmd_call_hangup_all : Handler
  cmd_call_hangup_all params = no_result (hangup_all p)

  -- The counters of a type, or nothing where the call has no active stream of it.
  counters_members : String → String → Members → Result StreamStat → Members
  counters_members tx_key rx_key obj (err e) = obj
  counters_members tx_key rx_key obj (ok stat) =
      add_number (add_number obj tx_key (of_unsigned stat.tx)) rx_key (of_unsigned stat.rx)

  unfoldable pub add_rtp_counters : ℤ → MediaType → String → String → Members → M Members
  unfolding counters_members
  add_rtp_counters id t tx_key rx_key obj w =
      let r = get_rtp_counters p id t w in (counters_members tx_key rx_key obj r.0, r.1)

  unfoldable pub info_members : CallInfo → Members
  info_members info =
      add_number
        (add_bool
          (add_bool
            (add_str
              (add_str
                (add_number
                  (add_string (add_number end "call_id" (of_int info.id)) "state"
                    (state_str info.state))
                  "last_status" (of_unsigned info.last_status))
                "last_status_text" info.last_status_text)
              "remote_info" info.remote_info)
            "has_audio" (has_active audio info.media))
          "has_video" (has_active video info.media))
        "connect_duration_sec" (of_unsigned info.connect_duration_sec)

  info_known : ℤ → Result CallInfo → M (Result Members)
  unfolding add_rtp_counters info_members
  info_known id (err e) w = (err e, w)
  info_known id (ok info) w =
      let a =
        add_rtp_counters id audio "audio_tx_packets" "audio_rx_packets" (info_members info) w in
      let v = add_rtp_counters id video "video_tx_packets" "video_rx_packets" a.0 a.1 in
      (ok v.0, v.1)

  info_with : Option ℤ → M (Result Members)
  unfolding info_known
  info_with none w = (err einval, w)
  info_with (some id) w = let r = get_info p id w in info_known id r.0 r.1

  unfoldable pub cmd_call_get_info : Handler
  unfolding info_with
  cmd_call_get_info params = info_with (get_int_member p params "call_id")

  -- The "video" that was asked for, or else what the offer had.
  answer_video : ℤ → Option Bool → M (Result Bool)
  answer_video id (some with_video) w = (ok with_video, w)
  answer_video id none w = remote_offered_video p id w

  answer_known : ℤ → ℤ → Result Bool → M (Result Members)
  answer_known id code (err e) = pure (err e)
  answer_known id code (ok with_video) = no_result (answer p id (to_unsigned code) with_video)

  answer_with : Option ℤ → ℤ → Option Bool → M (Result Members)
  unfolding answer_video answer_known
  answer_with none code with_video w = (err einval, w)
  answer_with (some id) code with_video w =
      let r = answer_video id with_video w in answer_known id code r.0 r.1

  unfoldable pub cmd_call_answer : Handler
  unfolding answer_with
  cmd_call_answer params =
      answer_with (get_int_member p params "call_id")
        (or_default (get_int_member p params "code") (pos 200)) (get_bool_member params "video")
