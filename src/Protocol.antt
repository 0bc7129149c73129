-- ===== src/Protocol.antt =====
-- docs/PROTOCOL.md: the shapes of the messages that the daemon sends, and which values are such
-- messages. The statements about the code are in the modules below.
pub mod Typed
pub mod Message
pub mod Said
use pjsocky.Dispatch.Line.{
  Command, ping, version_get, status_get, account_configure, account_register, account_unregister,
  account_remove, device_list_audio, device_list_video, device_set_audio, device_set_video,
  call_dial, call_hangup, call_hangup_all, call_get_info, call_answer, config_set_ring_timeout,
  config_get_ring_timeout, im_send, im_typing,
}
use pjsocky.Json.{
  Value, null, bool, number, string, array, object, Items, nil, cons, Members, end, member,
}
use pjsocky.Prelude.{String, str_eq, Bool, true, false, ◌&&◌, ◌||◌, none, List, [], ◌∷◌}

-- The type of a field: a text, one of some words, a number, a Boolean, or an array of objects.
mutual
  pub data Kind : Type 0 where
    text num flag : Kind
    word : List String → Kind
    objects : Fields → Kind

  pub data Fields : Type 0 where
    nothing : Fields
    field : String → Kind → Fields → Fields

abbrev pub mem_word : String → List String → Bool
mem_word s [] = false
mem_word s (t ∷ ts) = str_eq s t || mem_word s ts

-- Exactly these fields, in this order.
abbrev mutual
  pub fits : Kind → Value → Bool
  fits text (string s) = true
  fits num (number x) = true
  fits flag (bool b) = true
  fits (word ws) (string s) = mem_word s ws
  fits (objects fs) (array vs) = all_fit fs vs
  fits _ _ = false

  pub all_fit : Fields → Items → Bool
  all_fit fs nil = true
  all_fit fs (cons (object ms) vs) = has_fields fs ms && all_fit fs vs
  all_fit fs (cons _ vs) = false

  pub has_fields : Fields → Members → Bool
  has_fields nothing end = true
  has_fields (field name k fs) (member n v ms) = str_eq n name && (fits k v && has_fields fs ms)
  has_fields _ _ = false

abbrev pub has_one_of : List Fields → Members → Bool
has_one_of [] ms = false
has_one_of (fs ∷ rest) ms = has_fields fs ms || has_one_of rest ms

-- "Versioning"
abbrev pub version_fields : Fields
version_fields =
    field "protocol_version" text (field "daemon_version" text (field "pjsip_version" text nothing))

-- The names of pjsip_inv_state, and what the program says for any other value.
abbrev pub call_states : List String
call_states =
    "NULL" ∷ "CALLING" ∷ "INCOMING" ∷ "EARLY" ∷ "CONNECTING" ∷ "CONFIRMED" ∷ "DISCONNECTED"
    ∷ "UNKNOWN" ∷ []

-- call.get_info, and what may be at its end.
abbrev pub call_info_fields : Fields → Fields
call_info_fields counters = field "call_id" num (
    field "state" (word call_states) (
      field "last_status" num (
        field "last_status_text" text (
          field "remote_info" text (
            field "has_audio" flag
              (field "has_video" flag (field "connect_duration_sec" num counters)))))))

abbrev pub audio_counters : Fields → Fields
audio_counters fs = field "audio_tx_packets" num (field "audio_rx_packets" num fs)

abbrev pub video_counters : Fields → Fields
video_counters fs = field "video_tx_packets" num (field "video_rx_packets" num fs)

abbrev pub audio_device_fields : Fields
audio_device_fields =
    field "id" num
      (field "name" text (field "input_channels" num (field "output_channels" num nothing)))

-- "none" is what the program says for a device that has neither direction.
abbrev pub directions : List String
directions = "capture" ∷ "render" ∷ "capture_render" ∷ "none" ∷ []

abbrev pub video_device_fields : Fields
video_device_fields =
    field "id" num (field "name" text (field "driver" text (field "dir" (word directions) nothing)))

-- "Commands": the shapes that a command's result may have.
abbrev pub result_fields : Command → List Fields
result_fields version_get = version_fields ∷ []
result_fields status_get =
    field "state" (word ("idle" ∷ "registering" ∷ "registered" ∷ "in_call" ∷ []))
      (field "acc_id" num (field "reg_status" num (field "call_id" num nothing)))
    ∷ []
result_fields account_configure = field "acc_id" num nothing ∷ []
result_fields device_list_audio = field "devices" (objects audio_device_fields) nothing ∷ []
result_fields device_list_video = field "devices" (objects video_device_fields) nothing ∷ []
result_fields call_dial = field "call_id" num nothing ∷ []
result_fields call_get_info =
    call_info_fields (audio_counters (video_counters nothing))
    ∷ call_info_fields (audio_counters nothing)
    ∷ call_info_fields (video_counters nothing)
    ∷ call_info_fields nothing
    ∷ []
result_fields config_get_ring_timeout = field "seconds" num nothing ∷ []
result_fields _ = nothing ∷ []
