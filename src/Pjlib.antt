-- ===== src/Pjlib.antt =====
-- What the program takes from outside: pjlib, pjlib-util, pjsua-lib and the operating system. None of
-- their code is in the repository. Each call that the program makes is a `Request`; the requests made
-- so far, newest first, are the history, and the environment answers each as a function of it. So an
-- answer may depend on everything that was asked before, and nothing more is assumed of it.
use pjsocky.Framing.Buffer.{Recv}
use pjsocky.Json.{Value}
use pjsocky.Number.Defs.{Float}
use pjsocky.Prelude.{
  ℕ, ℤ, negsuc, Bool, true, false, String, List, [], ◌∷◌, Option, none, some, Status, Error, Result,
}

-- PJSUA_INVALID_ID, and PJMEDIA_VID_INVALID_DEV, which the program uses the same way.
abbrev pub invalid_id : ℤ
invalid_id = negsuc 0

abbrev pub invalid_dev : ℤ
invalid_dev = negsuc 2

-- The errno values that the program tests for.
abbrev pub eagain : ℕ
eagain = 11

abbrev pub eintr : ℕ
eintr = 4

-- O_NONBLOCK on Linux
abbrev pub o_nonblock : ℕ
o_nonblock = 2048

-- pjmedia_dir. CAPTURE is ENCODING, and RENDER is DECODING.
pub data Dir : Type 0 where
  no_dir encoding decoding encoding_decoding other_dir : Dir

-- `dir & PJMEDIA_DIR_ENCODING`; a direction outside of the four is taken not to have the bit.
abbrev pub has_encoding : Dir → Bool
has_encoding encoding = true
has_encoding encoding_decoding = true
has_encoding _ = false

pub data MediaType : Type 0 where
  audio video other_media : MediaType

pub data MediaStatus : Type 0 where
  no_media active local_hold remote_hold media_error other_status : MediaStatus

pub data InvState : Type 0 where
  null calling incoming early connecting confirmed disconnected unknown : InvState

-- pjsua_call_media_info
pub record Media : Type 0 where
  pub type : MediaType
  pub status : MediaStatus
  pub dir : Dir
  pub conf_slot : ℤ

-- pjsua_call_info; `media` holds the first media_cnt entries.
pub record CallInfo : Type 0 where
  pub id : ℤ
  pub acc_id : ℤ
  pub state : InvState
  pub last_status : ℕ
  pub last_status_text : String
  pub remote_info : String
  pub media : List Media
  pub rem_aud_cnt : ℕ
  pub rem_vid_cnt : ℕ
  pub connect_duration_sec : ℕ

pub record CallSetting : Type 0 where
  pub vid_cnt : ℕ
  pub txt_cnt : ℕ

-- pjsua_acc_info
pub record AccInfo : Type 0 where
  pub id : ℤ
  pub status : ℕ
  pub status_text : String

-- The fields of pjsua_acc_config that the program sets.
pub record AccConfig : Type 0 where
  pub id : String
  pub reg_uri : String
  pub register_on_acc_add : Bool
  pub vid_in_auto_show : Bool
  pub vid_out_auto_transmit : Bool
  pub vid_cap_dev : ℤ
  pub realm : String
  pub scheme : String
  pub username : String
  pub secret : String

pub record AudioDevice : Type 0 where
  pub id : ℤ
  pub name : String
  pub input_count : ℕ
  pub output_count : ℕ

pub record VideoDevice : Type 0 where
  pub id : ℤ
  pub name : String
  pub driver : String
  pub dir : Dir

-- pjsua_snd_dev_param; `no_immediate_open` is the mode flag.
pub record SoundParam : Type 0 where
  pub capture_dev : ℤ
  pub playback_dev : ℤ
  pub no_immediate_open : Bool

-- pjsua_stream_stat: rtcp.tx.pkt and rtcp.rx.pkt.
pub record StreamStat : Type 0 where
  pub tx : ℕ
  pub rx : ℕ

-- The fields of pjsua_stream_info that the program reads, of its audio or its video half.
pub record StreamInfo : Type 0 where
  pub is_video : Bool
  pub encoding_name : String
  pub tx_pt : ℕ
  pub rx_pt : ℕ

-- What the log says of a negotiation: an m-line, by its index, that is not active or whose stream is not
-- known; one that is active; and the last line.
pub data MediaLine : Type 0 where
  plain : (index : ℕ) → (type status dir : String) → MediaLine
  streaming : (index : ℕ) → (type dir encoding_name : String) → (tx_pt rx_pt : ℕ) → MediaLine
  negotiated : (media_cnt rem_aud_cnt rem_vid_cnt : ℕ) → MediaLine

-- The operation of pjsua_call_set_vid_strm() with the field of its parameter that is set.
pub data VideoOp : Type 0 where
  remove change_cap_dev : ℤ → VideoOp

pub data TimerName : Type 0 where
  ring_timer video_watchdog media_report : TimerName

-- pj_time_val
pub record Delay : Type 0 where
  pub sec : ℕ
  pub msec : ℕ

-- select() on one socket for writing.
pub data Wait : Type 0 where
  writable expired : Wait
  wait_error : ℕ → Wait

pub data Request : Type 0 where
  acc_add : AccConfig → Request
  acc_set_registration : ℤ → Bool → Request
  acc_del acc_get_info acc_get_config : ℤ → Request
  acc_modify : ℤ → AccConfig → Request
  make_call : ℤ → String → CallSetting → Request
  call_hangup : ℤ → ℕ → Request
  call_answer : ℤ → CallSetting → ℕ → Request
  call_get_info : ℤ → Request
  call_get_max_count call_get_count : Request
  call_get_stream_stat : ℤ → ℕ → Request
  call_get_stream_info : ℤ → ℕ → Request
  call_set_vid_strm : ℤ → VideoOp → Request
  conf_connect : ℤ → ℤ → Request
  schedule_timer : TimerName → ℤ → Delay → Request
  cancel_timer : TimerName → Request
  im_send : ℤ → String → String → String → Request
  im_typing : ℤ → String → Bool → Request
  enum_aud_devs vid_enum_devs : ℕ → Request
  vid_dev_get_info : ℤ → Request
  snd_is_active set_no_snd_dev : Request
  set_snd_dev : SoundParam → Request
  pool_create : Request
  media_log : ℤ → Option StreamStat → Option StreamStat → Request
  media_line : ℤ → MediaLine → Request
  tick_count : Request
  send : ℕ → List ℕ → Request
  wait_writable : ℕ → ℕ → Request
  json_write : Value → ℕ → Request
  -- fcntl() with F_GETFL, and with F_SETFL
  get_flags : ℕ → Request
  set_flags : ℕ → ℕ → Request
  recv : ℕ → ℕ → Request
  close : ℕ → Request

abbrev pub History : Type 0
History = List Request

-- The last request that was made.
abbrev pub latest : History → Option Request
latest [] = none
latest (q ∷ h) = some q

-- The answers. An `ok` answer carries what the C call stores through its out parameter.
pub record Pjlib : Type 0 where
  pub acc_add : History → Result ℤ
  pub acc_set_registration : History → Status
  pub acc_del : History → Status
  pub acc_get_info : History → Result AccInfo
  pub acc_get_config : History → Result AccConfig
  pub acc_modify : History → Status
  pub acc_config_default : AccConfig
  pub make_call : History → Result ℤ
  pub call_hangup : History → Status
  pub call_answer : History → Status
  pub call_get_info : History → Result CallInfo
  pub call_get_max_count : History → ℕ
  pub call_get_count : History → ℕ
  pub call_setting_default : CallSetting
  pub call_get_stream_stat : History → Result StreamStat
  pub call_get_stream_info : History → Result StreamInfo
  pub call_set_vid_strm : History → Status
  pub conf_connect : History → Status
  pub schedule_timer : History → Status
  pub im_send : History → Status
  pub im_typing : History → Status
  pub enum_aud_devs : History → Result (List AudioDevice)
  pub vid_enum_devs : History → Result (List VideoDevice)
  pub vid_dev_get_info : History → Result VideoDevice
  pub snd_is_active : History → Bool
  pub set_snd_dev : History → Status
  pub pool_create : History → Bool
  pub tick_count : History → ℕ
  pub send : History → Result ℕ
  pub wait_writable : History → Wait
  -- How many waits of one send_all signals may interrupt: the bound of its loop in the model.
  pub max_interrupts : ℕ
  pub json_parse : List ℕ → Option Value
  pub json_write : History → Result (List ℕ)
  pub get_flags : History → ℤ
  pub set_flags : History → ℤ
  -- errno after the last request
  pub errno : History → ℕ
  pub recv : History → Recv
  pub strerror : Error → String
  pub get_version : String
  -- PJSOCKY_VERSION, which the build defines.
  pub daemon_version : String
  -- What (int)x gives where C leaves it undefined.
  pub undefined_int : Float → ℤ
