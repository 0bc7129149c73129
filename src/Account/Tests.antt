-- ===== src/Account/Tests.antt =====
-- Runs of the account's commands.
use pjsocky.Account.{on_reg_state2}
use pjsocky.Account.Machine.{
  Operation, configure_account, register_account, remove_account, Tracks, live, AddsValid, run,
  run-Tracks, Reports, on_reg_state2-Reports,
}
use pjsocky.Pjlib.{acc_get_info}
use pjsocky.Sample.{sample, sample_world}
use pjsocky.World.{start}
use pjsocky.Prelude.{refl, true, List, [], ◌∷◌, arith, pos, ok}

abbrev session : List Operation
session =
    configure_account "sip:me@example.org" "sip:example.org" "me" "secret" "*"
    ∷ register_account
    ∷ configure_account "sip:you@example.org" "sip:example.org" "you" "secret" "*"
    ∷ remove_account
    ∷ []

sample-AddsValid : AddsValid sample
sample-AddsValid h id e = ground arith

start-Tracks : Tracks sample start
unfolding start live
start-Tracks = refl

run-Tracks_example : Tracks sample (run sample session start)
run-Tracks_example = run-Tracks sample sample-AddsValid session start start-Tracks

on_reg_state2-Reports_example :
    Reports true sample_world
      (acc_get_info (pos 0) ∷ [])
      (ok (record { id = pos 0; status = 200; status_text = "OK" }))
      (on_reg_state2 sample (pos 0) true sample_world).1
unfolding start
on_reg_state2-Reports_example = on_reg_state2-Reports sample (pos 0) true sample_world
