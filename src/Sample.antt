-- ===== src/Sample.antt =====
-- An environment for the tests: it answers each call in the simplest way that the program accepts.
use pjsocky.Framing.Buffer.{Recv, received, would_block, newline}
use pjsocky.Framing.Buffer.Step.{delivered}
use pjsocky.Framing.Compact.Tokens.{plain}
use pjsocky.Framing.Send.Line.{JsonPrints}
use pjsocky.Framing.Send.Total.{blocks, WritableSends}
use pjsocky.Json.{object, string, end, member}
use pjsocky.Pjlib.{
  invalid_dev, encoding, encoding_decoding, audio, video, active, confirmed, CallInfo, AccConfig,
  VideoDevice, writable, send, recv, History, Pjlib,
}
use pjsocky.Server.Input.{RecvFits}
use pjsocky.World.{World, start}
use pjsocky.Prelude.{
  ◌≡◌, false, ℕ, refl, true, false, some, List, [], ◌∷◌, arith, pos, length, take, length-take,
  Result, success, ok,
}

-- An established call with one audio and one sending video stream.
abbrev pub sample_call : CallInfo
sample_call = record {
  id = pos 1;
  acc_id = pos 0;
  state = confirmed;
  last_status = 200;
  last_status_text = "OK";
  remote_info = "<sip:peer@example.org>";
  media =
      record { type = audio; status = active; dir = encoding_decoding; conf_slot = pos 2 }
      ∷ record { type = video; status = active; dir = encoding; conf_slot = pos 0 }
      ∷ [];
  rem_aud_cnt = 1;
  rem_vid_cnt = 1;
  connect_duration_sec = 7;
}

abbrev sample_config : AccConfig
sample_config = record {
  id = "sip:me@example.org";
  reg_uri = "sip:example.org";
  register_on_acc_add = false;
  vid_in_auto_show = true;
  vid_out_auto_transmit = true;
  vid_cap_dev = invalid_dev;
  realm = "*";
  scheme = "digest";
  username = "me";
  secret = "secret";
}

abbrev pub sample_camera : VideoDevice
sample_camera = record { id = pos 3; name = "camera"; driver = "v4l2"; dir = encoding }

-- The peer sends one line and the start of another.
abbrev pub sample_input : List ℕ
sample_input = b'{' ∷ b'}' ∷ newline ∷ b'{' ∷ []

abbrev answer_recv : History → Recv
answer_recv (recv sock size ∷ h) = received (take size sample_input)
answer_recv _ = would_block

-- send() takes three bytes at most.
abbrev answer_send : History → Result ℕ
answer_send (send sock (a ∷ b ∷ c ∷ bs) ∷ h) = ok 3
answer_send (send sock (a ∷ b ∷ []) ∷ h) = ok 2
answer_send (send sock (a ∷ []) ∷ h) = ok 1
answer_send _ = ok 0

answer_send-unblocked :
    (sock : ℕ) (bs : List ℕ) (h : History) → blocks (answer_send (send sock bs ∷ h)) ≡ false
answer_send-unblocked sock [] h = refl
answer_send-unblocked sock (a ∷ []) h = refl
answer_send-unblocked sock (a ∷ b ∷ []) h = refl
answer_send-unblocked sock (a ∷ b ∷ c ∷ bs) h = refl

abbrev pub sample : Pjlib
sample = record {
  acc_add = λ h. ok (pos 0);
  acc_set_registration = λ h. success;
  acc_del = λ h. success;
  acc_get_info = λ h. ok (record { id = pos 0; status = 200; status_text = "OK" });
  acc_get_config = λ h. ok sample_config;
  acc_modify = λ h. success;
  acc_config_default = sample_config;
  make_call = λ h. ok (pos 1);
  call_hangup = λ h. success;
  call_answer = λ h. success;
  call_get_info = λ h. ok sample_call;
  call_get_max_count = λ h. 4;
  call_get_count = λ h. 0;
  call_setting_default = record { vid_cnt = 1; txt_cnt = 0 };
  call_get_stream_stat = λ h. ok (record { tx = 0; rx = 9 });
  call_get_stream_info =
      λ h. ok (record { is_video = false; encoding_name = "PCMU"; tx_pt = 0; rx_pt = 0 });
  call_set_vid_strm = λ h. success;
  conf_connect = λ h. success;
  schedule_timer = λ h. success;
  im_send = λ h. success;
  im_typing = λ h. success;
  enum_aud_devs = λ h. ok [];
  vid_enum_devs = λ h. ok (sample_camera ∷ []);
  vid_dev_get_info = λ h. ok sample_camera;
  snd_is_active = λ h. true;
  set_snd_dev = λ h. success;
  pool_create = λ h. true;
  tick_count = λ h. length h;
  send = answer_send;
  wait_writable = λ h. writable;
  max_interrupts = 3;
  json_parse = λ bs. some (object (member "id" (string "1") (member "cmd" (string "ping") end)));
  json_write = λ h. ok (b'{' ∷ b'}' ∷ []);
  get_flags = λ h. pos 2;
  set_flags = λ h. pos 0;
  errno = λ h. 0;
  recv = answer_recv;
  strerror = λ e. "error";
  get_version = "2.15";
  daemon_version = "1.0";
  undefined_int = λ x. pos 0;
}

-- A registered account and a client on socket 5.
abbrev pub sample_world : World
sample_world = record start {
  acc_id = pos 0;
  registered = true;
  call_id = pos 1;
  connection = some (record { sock = 5; write_timeout_msec = 2000 });
}

pub sample-JsonPrints : JsonPrints sample
sample-JsonPrints h text e = (plain b'{' ∷ plain b'}' ∷ [], (refl, refl, (refl, refl, tt)), cc)

sample-WritableSends : WritableSends sample
sample-WritableSends h sock t bs e = answer_send-unblocked sock bs _

pub sample-RecvFits : RecvFits sample
unfolding delivered
sample-RecvFits h sock size = omega (arith, length-take size sample_input)
