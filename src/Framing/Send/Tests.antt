-- ===== src/Framing/Send/Tests.antt =====
-- Runs of the send side.
use pjsocky.Framing.Buffer.{newline}
use pjsocky.Framing.Send.{
  send_all, send_loop, send_round, wait_round, rounds, write_line, write_json,
}
use pjsocky.Framing.Send.Line.{WritesLine, write_json-WritesLine}
use pjsocky.Framing.Send.Total.{WritableSends, interrupted, send_all_total}
use pjsocky.Framing.Send.Wire.{Delivers, write_line-Delivers}
use pjsocky.Framing.Send.Peer.{wire}
use pjsocky.Json.{null}
use pjsocky.Pjlib.{
  Pjlib, History, Wait, tick_count, send, wait_writable, writable, wait_error, eagain, eintr,
}
use pjsocky.Sample.{sample, sample_world, sample-JsonPrints}
use pjsocky.World.{Connection, start}
use pjsocky.Prelude.{
  ℕ, ◌+◌, ◌==◌, if◌then◌else◌, length, os, ok, err, Result, ◌≤◌, arith, ◌≡◌, refl, some, List, [],
  ◌∷◌, ◌++◌, Status, is_success,
}

abbrev peer : Connection
peer = record { sock = 5; write_timeout_msec = 2000 }

abbrev hello : List ℕ
hello = b'h' ∷ b'e' ∷ b'l' ∷ b'l' ∷ b'o' ∷ []

write_line-Delivers_example :
    Delivers sample 5
      (hello ++ newline ∷ [])
      sample_world
      (write_line sample peer hello sample_world).1
      (is_success (write_line sample peer hello sample_world).0)
write_line-Delivers_example = write_line-Delivers sample peer hello sample_world

write_json-WritesLine_example :
    WritesLine sample peer sample_world (write_json sample peer null 64 sample_world)
write_json-WritesLine_example =
    write_json-WritesLine sample peer null 64 sample_world sample-JsonPrints

-- A peer that is slow: each byte waits for room, and a signal interrupts the first wait.
abbrev slow_send : History → Result ℕ
slow_send (send sock bs ∷ wait_writable s t ∷ h) = if length h == 3 then err (os eagain) else ok 1
slow_send _ = err (os eagain)

abbrev slow_wait : History → Wait
slow_wait h = if length h == 4 then wait_error eintr else writable

abbrev slow : Pjlib
slow = record sample { send = slow_send; wait_writable = slow_wait; max_interrupts = 1 }

slow-WritableSends : WritableSends slow
slow-WritableSends h sock t bs e = ground arith

slow_interrupts :
    interrupted slow (send_all slow 5 hello 2000 sample_world).1.history
    ≤ interrupted slow sample_world.history + 1
unfolding send_all send_loop send_round wait_round start
slow_interrupts = omega arith

send_all_total_example :
    let v = record sample_world { history = tick_count ∷ [] } in
    (s : Status) × ((send_loop slow (rounds slow hello) 5 2000 1 hello v).0 ≡ some s)
    × ((send_all slow 5 hello 2000 sample_world).0 ≡ s)
unfolding start
send_all_total_example =
    send_all_total slow 5 2000 hello sample_world slow-WritableSends slow_interrupts

slow_arrives : wire slow 5 (send_all slow 5 hello 2000 sample_world).1.history ≡ hello
unfolding send_all send_loop send_round wait_round wire start
slow_arrives = refl

one_signal : interrupted slow (send_all slow 5 hello 2000 sample_world).1.history ≡ 1
unfolding send_all send_loop send_round wait_round start
one_signal = refl

-- The peer takes the line in pieces of three bytes.
all_arrives :
    wire sample 5 (write_line sample peer hello sample_world).1.history ≡ hello ++ newline ∷ []
unfolding write_line send_all send_loop send_round wire start
all_arrives = refl
