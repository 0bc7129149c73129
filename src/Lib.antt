-- ===== src/Lib.antt =====
-- pjsocky: a headless SIP phone driven over a local control socket.
--
-- A client connects to a Unix socket and sends commands as JSON, one object a line; each gets a response
-- line, and events come in between. The parts, and the files that model them:
--
--   src/proto/framing.c     Framing/Buffer (the line buffer), Framing/Compact (compact_json),
--                           Framing/Send (send_all, write_line, write_json)
--   src/proto/jsonutil.c    Json; the C float that a JSON number is stored as: Number
--   src/proto/events.c      Events: responses and events go to the connection that is set
--   src/proto/server.c      Server (one connection: open, refuse, close, a read event), Server/Loop and
--                           Server/Socket (the listening socket)
--   src/proto/dispatch.c    Dispatch: Params, the handlers in Daemon, Devices, Calls and Messages, and
--                           Line with the command table and pjsocky_dispatch_line
--   src/proto/version.c     Version
--   src/account.c           Account
--   src/device.c            Device
--   src/call.c              Call: Info, Commands, Video (watchdog), Report, Negotiated, Callbacks
--   src/im.c                Im
--   src/null_video_dev.c    NullVideo
--   src/main.c              Main (start-up, the loop and the end) with Main/Config (what the environment
--                           variables make of the configuration) and Main/Codecs
--                           (apply_video_format_override); its parsing is VideoFormat, and
--                           configure_nameservers is Nameservers
--   docs/PROTOCOL.md        Protocol: the shapes of the results (Protocol) and of the events and
--                           responses (Protocol/Message), and what the daemon has said so far
--                           (Protocol/Said); the modules named Typed and Said below a component
--                           are about it
--
-- Daemon has the whole: turns of the server's loop and, between them, the callbacks and the timers of
-- pjsua-lib, each one step; Main/Running has it from the state in which main() starts the loop. (In the C
-- program a callback runs on a thread of pjsua-lib; a command that is in the middle of a request is not
-- interrupted in the model.)
--
-- A file is named for its C functions: `pjsocky_account_configure` is `configure` of Account, `cmd_ping` is
-- `cmd_ping` of Dispatch/Daemon. The statements about a file are in the modules below it.
--
-- State. The file-scope variables of account.c, device.c and call.c and the connection that events.c
-- holds are the record World (World.antt); every C function that reads or changes them is a function of
-- a World. The server's own state is the record Server of Server/Loop.
--
-- Environment. pjlib, pjlib-util, pjsua-lib and the operating system are not in the repository. Each call
-- of them is a Request (Pjlib.antt) that is put in front of the World's history, and the record Pjlib has
-- for each an answer that is a function of that history; nothing is assumed of the answers but what
-- a theorem names: that recv() delivers at most what it is asked for (RecvFits), that the JSON printer
-- escapes what JSON says (JsonPrints), that the number of calls it has room for is fixed (HasLimit), that an
-- added account's id is not PJSUA_INVALID_ID (AddsValid), that a socket takes bytes without blocking when
-- select() has just said so (WritableSends), and that a pool can be had. Sample.antt is an environment for
-- which all of these hold.
--
-- What main() and pjsocky_server_create ask for before the loop runs and after it is a trace of Actions in the
-- same way, and the record Platform (Platform.antt) has the answers, the environment variables, the lines of
-- resolv.conf and the defaults of the libraries; nothing is assumed of them. Server/Socket/Kernel says
-- what the socket calls do to the open sockets and to the file at the path.
--
-- Loops. compact_json and the loops over arrays are structural recursion. send_all's loop takes two
-- rounds for each byte, a wait and a send, one for each wait that a signal interrupts, and two more. How
-- many waits of one call signals may interrupt is a bound of the model (max_interrupts of Pjlib, any
-- number); past it, send_all of the model reports a timeout, and within it the loop never runs out of
-- rounds (Framing/Send/Total). The loop over the lines of one read takes one pass more than there are
-- bytes in the buffer, and each pass takes at least one (Server/Input). The server's loop is a list of
-- turns.
--
-- Numbers. A byte is a number; an `int` is an integer, an `unsigned` a natural number, with the wrap of
-- the stall counter and the conversion (unsigned)code written out. Conversions to float round to
-- nearest even at 24 bits; where (int)x is undefined in C the value is the environment's.
--
-- Left out: log lines, except the periodic media report and what was negotiated, which are requests;
-- memory pools, except whether one could be had; the mutex of events.c, which makes each of its calls one step; what pjsua-lib calls back
-- while main() starts up; the registration of the signal handler, which is a turn of the loop.
pub mod Prelude
pub mod Framing
pub mod Number
pub mod Json
pub mod Pjlib
pub mod VideoFormat
pub mod World
pub mod Events
pub mod Device
pub mod Account
pub mod Call
pub mod Im
pub mod Version
pub mod Dispatch
pub mod Nameservers
pub mod NullVideo
pub mod Platform
pub mod Server
pub mod Protocol
pub mod Daemon
pub mod Main
pub mod Sample
