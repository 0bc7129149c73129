-- ===== src/Main/Tests.antt =====
-- Runs of main() on a platform where every call succeeds.
use pjsocky.Call.Video.Armed.{WatchdogOk}
use pjsocky.Daemon.{server_turn, registration, Reaches, here, then_step}
use pjsocky.Main.{
  server_of, going, start_up, exit, main, create_library, init_library, start_library,
  create_server, sock_path,
}
use pjsocky.Main.Running.{Reaches-Safe}
use pjsocky.Account.{on_reg_state2}
use pjsocky.Protocol.Said.{Proper}
use pjsocky.Server.Loop.{
  Server, turn, Turn, quiet, ready, stop_signal, no_client, client, accept_failed, select_failed,
}
use pjsocky.Server.Loop.Client.{Linked}
use pjsocky.Sample.{sample-RecvFits, sample}
use pjsocky.Main.Codecs.{apply_video_format_override}
use pjsocky.Main.Codecs.Override.{Settled, override-Settled}
use pjsocky.Main.Config.{ua_size, ua_text, user_agent, write_timeout, write_timeout_default}
use pjsocky.Main.Config.Timeout.{write_timeout-digits}
use pjsocky.Main.Config.UserAgent.{HasNoSlash, Replaced, user_agent_lem}
use pjsocky.Main.Stages.Finish.{Finished, main-Finished}
use pjsocky.Main.Stops.{main-ends}
use pjsocky.Platform.{Platform}
use pjsocky.Server.Socket.{Listener, server_create}
use pjsocky.Server.Socket.Kernel.{kernel}
use pjsocky.Server.Socket.Owned.{Ends, server_create-Ends}
use pjsocky.Prelude.{
  pos, String, str_eq, ℕ, ◌-◌, ◌^◌, ◌<◌, ◌≡◌, refl, true, false, Option, none, some, List, [], ◌∷◌,
  ◌++◌, if◌then◌else◌, length, take, drop, success, os, ok,
}

abbrev variables : String → Option (List ℕ)
variables name =
    if str_eq name "PJSOCKY_VIDEO_SIZE" then some (b'6' ∷ b'4' ∷ b'x' ∷ b'4' ∷ b'8' ∷ []) else none

abbrev machine : Platform
machine = record {
  pjsua_create = λ h. success;
  startup_pool = λ h. true;
  mutex_create = λ h. success;
  pjsua_init = λ h. success;
  vid_register_factory = λ h. success;
  max_codecs = 32;
  vid_enum_codecs = λ h. ok ("H264" ∷ []);
  vid_codec_get_param = λ h. ok (record { width = 720; height = 480; fps_num = 30; fps_denum = 1 });
  vid_codec_set_param = λ h. success;
  transport_create = λ h. success;
  pjsua_start = λ h. success;
  aud_dev_count = λ h. 0;
  set_null_snd_dev = λ h. success;
  socket = λ h. ok 3;
  bind = λ h. success;
  chmod = λ h. true;
  listen = λ h. success;
  errno = λ h. 0;
  getenv = variables;
  resolv_conf = none;
  ua_config_default = record {
    nameservers = [];
    user_agent = [];
    stun_srv = [];
    stun_ignore_failure = false;
  };
  log_config_default = record { level = 5; console_level = 4 };
  media_config_default = record { no_vad = false; enable_ice = false };
  ulong_max = 2 ^ 32 - 1;
  long_max = 2 ^ 31 - 1;
  version = b'0' ∷ b'.' ∷ b'2' ∷ [];
  pj_version = b'2' ∷ [];
  sys_info = b'L' ∷ b'/' ∷ b'6' ∷ [];
}

server_create-Ends_example :
    Ends machine
      (b'p' ∷ [])
      5000
      (kernel machine (b'p' ∷ []) [])
      (server_create machine (b'p' ∷ []) 5000 [])
server_create-Ends_example = server_create-Ends machine (b'p' ∷ []) 5000 [] refl tt

-- A client comes and goes unheard, and the daemon is told to stop.
abbrev day : List Turn
day = ready false (client 5) ∷ ready true no_client ∷ []

main-Finished_example : Finished machine (main machine sample day)
main-Finished_example = main-Finished machine sample day

abbrev made : Listener
made = record { listen_sock = 3; path = sock_path machine; write_timeout_msec = 5000 }

starts_up : start_up machine [] ≡ (going made, (start_up machine []).1)
unfolding start_up create_library init_library start_library create_server server_create
    write_timeout apply_video_format_override
starts_up = refl

main-ends_example :
    ((main machine sample (day ++ stop_signal ∷ quiet ∷ [])).0 ≡ exit 0)
    × ((main machine sample (day ++ ready false (accept_failed (os 24)) ∷ [])).0 ≡ exit 0)
    × ((main machine sample (day ++ select_failed (os 24) ∷ [])).0 ≡ exit 0)
main-ends_example =
    main-ends machine sample day [] quiet false (os 24) made (start_up machine []).1 starts_up

override-Settled_example : Settled machine none (apply_video_format_override machine [])
override-Settled_example = override-Settled machine [] tt

user_agent_lem_example :
    let text = take (ua_size - 1) (ua_text machine.version machine.pj_version machine.sys_info) in
    let ua = user_agent machine.version machine.pj_version machine.sys_info in
    (length ua < ua_size) × (take 11 ua ≡ take 11 text) × HasNoSlash (drop 11 ua) × Replaced text ua
user_agent_lem_example = user_agent_lem machine.version machine.pj_version machine.sys_info

-- " 4294967296" where a long has 64 bits
write_timeout-digits_example :
    let number : List ℕ =
      b'4' ∷ b'2' ∷ b'9' ∷ b'4' ∷ b'9' ∷ b'6' ∷ b'7' ∷ b'2' ∷ b'9' ∷ b'6' ∷ [] in
    (write_timeout (2 ^ 63 - 1) none ≡ write_timeout_default)
    × (write_timeout (2 ^ 63 - 1) (some (b' ' ∷ number)) ≡ 0)
    × (write_timeout (2 ^ 63 - 1) (some (b' ' ∷ b'-' ∷ number)) ≡ write_timeout_default)
write_timeout-digits_example =
    write_timeout-digits (2 ^ 63 - 1) (b' ' ∷ []) b'4'
      (b'2' ∷ b'9' ∷ b'4' ∷ b'9' ∷ b'6' ∷ b'7' ∷ b'2' ∷ b'9' ∷ b'6' ∷ []) (refl, tt)
      (refl, (refl, (refl, (refl, (refl, (refl, (refl, (refl, (refl, (refl, tt))))))))))

-- A client connects, and a registration is reported to it.
abbrev greeted : Server
greeted = turn sample (ready false (client 5)) (server_of made)

abbrev reported : Server
reported = record greeted { world = (on_reg_state2 sample (pos 0) true greeted.world).1 }

report : Reaches sample (server_of made) reported
report =
    then_step (then_step here (server_turn (ready false (client 5)) (server_of made)))
      (registration (pos 0) true greeted)

Reaches-Safe_example : Linked reported × WatchdogOk reported.world × Proper reported.world
Reaches-Safe_example = Reaches-Safe sample made reported sample-RecvFits report
