-- ===== src/Platform.antt =====
-- What start-up and shutdown take from outside: src/main.c and the part of src/proto/server.c that makes
-- the listening socket. As in Pjlib.antt, each call is put in front of the trace, and the answers are
-- functions of it; the libraries' defaults, the environment variables and the files are values.
use pjsocky.Prelude.{String, ℕ, Bool, Option, List, ◌∷◌, Status, Result}

-- The fields of pjsua_config that the program sets, without its own callbacks, which are always the
-- same nine functions.
pub record UaConfig : Type 0 where
  pub nameservers : List (List ℕ)
  pub user_agent : List ℕ
  pub stun_srv : List (List ℕ)
  pub stun_ignore_failure : Bool

pub record LogConfig : Type 0 where
  pub level : ℕ
  pub console_level : ℕ

pub record MediaConfig : Type 0 where
  pub no_vad : Bool
  pub enable_ice : Bool

-- The encoder's format in pjmedia_vid_codec_param.
pub record CodecParam : Type 0 where
  pub width : ℕ
  pub height : ℕ
  pub fps_num : ℕ
  pub fps_denum : ℕ

pub data Action : Type 0 where
  pjsua_create startup_pool mutex_create : Action
  tsx_set_timers : (t1 t2 t4 td : ℕ) → Action
  pjsua_init : UaConfig → LogConfig → MediaConfig → Action
  vid_register_factory : Action
  vid_enum_codecs : ℕ → Action
  vid_codec_get_param : String → Action
  vid_codec_set_param : String → CodecParam → Action
  transport_create pjsua_start aud_dev_count set_null_snd_dev : Action
  socket : Action
  unlink : List ℕ → Action
  bind : ℕ → List ℕ → Action
  chmod : List ℕ → ℕ → Action
  listen : ℕ → ℕ → Action
  close : ℕ → Action
  pjsua_destroy : Action

abbrev pub Trace : Type 0
Trace = List Action

pub record Platform : Type 0 where
  pub pjsua_create : Trace → Status
  pub startup_pool : Trace → Bool
  pub mutex_create : Trace → Status
  pub pjsua_init : Trace → Status
  pub vid_register_factory : Trace → Status
  -- PJMEDIA_CODEC_MGR_MAX_CODECS
  pub max_codecs : ℕ
  pub vid_enum_codecs : Trace → Result (List String)
  pub vid_codec_get_param : Trace → Result CodecParam
  pub vid_codec_set_param : Trace → Status
  pub transport_create : Trace → Status
  pub pjsua_start : Trace → Status
  pub aud_dev_count : Trace → ℕ
  pub set_null_snd_dev : Trace → Status
  pub socket : Trace → Result ℕ
  pub bind : Trace → Status
  -- whether chmod() gives 0
  pub chmod : Trace → Bool
  pub listen : Trace → Status
  -- errno after the last call of the trace
  pub errno : Trace → ℕ
  pub getenv : String → Option (List ℕ)
  -- what fgets() yields for /etc/resolv.conf, if it can be opened
  pub resolv_conf : Option (List (List ℕ))
  pub ua_config_default : UaConfig
  pub log_config_default : LogConfig
  pub media_config_default : MediaConfig
  -- ULONG_MAX and LONG_MAX
  pub ulong_max : ℕ
  pub long_max : ℕ
  -- PJSOCKY_VERSION, pj_get_version() and pj_get_sys_info()->info
  pub version : List ℕ
  pub pj_version : List ℕ
  pub sys_info : List ℕ

-- A call with an answer, and one without.
abbrev pub ask {ℓ} : {A : Type ℓ} → Action → (Trace → A) → Trace → A × Trace
ask q answer h = (answer (q ∷ h), q ∷ h)
