-- ===== src/Daemon/Invariant.antt =====
-- What holds in every state of the daemon.
use pjsocky.Account.Keeps.{on_reg_state2-Frame}
use pjsocky.Account.{on_reg_state2}
use pjsocky.Call.Callbacks.Keeps.{Step-CallFrame}
use pjsocky.Call.Callbacks.Watched.{Step-WatchdogOk}
use pjsocky.Call.Video.Armed.{WatchdogOk}
use pjsocky.Call.Video.{allowed_ticks}
use pjsocky.Daemon.{
  Happens, server_turn, call_step, registration, message, message_status, typing_indication,
  Reaches, here, then_step,
}
use pjsocky.Daemon.Calls.{watched, turn-Same}
use pjsocky.Events.Push.{push-SameState}
use pjsocky.Im.{on_pager2, on_pager_status2, on_typing2}
use pjsocky.Pjlib.{Pjlib}
use pjsocky.Server.Input.{RecvFits}
use pjsocky.Server.Loop.Client.{Linked, Linked-world, turn-Linked}
use pjsocky.Server.Loop.{Server}
use pjsocky.World.{World, Timer, Connection}
use pjsocky.Prelude.{ℕ, ◌<◌, ◌≡◌, sym, ap, subst, Bool, true, false, Option, ℤ, is_equal}

abbrev pub Sound : Server → Type 0
Sound s = Linked s × WatchdogOk s.world

-- The invariant reads only this of the world.
abbrev seen_of : World → (Timer × ℕ × ℕ × ℤ) × Option Connection
seen_of w = (watched w, w.connection)

abbrev Watches : Timer × ℕ × ℕ × ℤ → Type 0
Watches x = x.0.scheduled ≡ true → (x.1 < allowed_ticks x.2) × (is_equal x.0.user_data x.3 ≡ false)

Sound-world :
    (s : Server) (v : World)
    → Sound s
    → seen_of v ≡ seen_of s.world
    → Sound (record s { world = v })
Sound-world s v (linked, before) e =
    (Linked-world s v linked (ap (λ x. x.1) e), subst Watches (sym (ap (λ x. x.0) e)) before)

reg_state-seen :
    (p : Pjlib) (acc_id : ℤ) (renew : Bool) (w : World)
    → seen_of (on_reg_state2 p acc_id renew w).1 ≡ seen_of w
reg_state-seen p acc_id renew w = ap seen_of (on_reg_state2-Frame p acc_id renew w)

module _ (p : Pjlib) (fits : RecvFits p) where
  Happens-Sound : (s t : Server) → Happens p s t → Sound s → Sound t
  unfolding on_pager2 on_pager_status2 on_typing2
  Happens-Sound s _ (server_turn t _) (linked, before) =
      (turn-Linked p t s fits linked, subst Watches (sym (turn-Same p t s)) before)
  Happens-Sound s _ (call_step _ v h) (linked, before) = (
    Linked-world s v linked (ap {A = World} (λ x. x.connection) (Step-CallFrame p s.world v h)),
    Step-WatchdogOk p h before,
  )
  Happens-Sound s _ (registration acc_id renew _) sound =
      Sound-world s _ sound (reg_state-seen p acc_id renew s.world)
  Happens-Sound s _ (message from to mime_type body _) sound =
      Sound-world s _ sound (ap seen_of (push-SameState p _ _ s.world))
  Happens-Sound s _ (message_status to body status reason _) sound =
      Sound-world s _ sound (ap seen_of (push-SameState p _ _ s.world))
  Happens-Sound s _ (typing_indication from to is_typing _) sound =
      Sound-world s _ sound (ap seen_of (push-SameState p _ _ s.world))

-- However turns of the server, with any commands in them, callbacks and timers follow one another:
-- events go to the client that is served, and to nobody where there is none; and a video watchdog that
-- is scheduled is for a call whose video has not been given up, with a window left. The conditions
-- are that this was so before, and that recv() delivers at most what it is asked for.
pub Reaches-Sound : (p : Pjlib) (s t : Server) → RecvFits p → Reaches p s t → Sound s → Sound t
Reaches-Sound p s _ fits here sound = sound
Reaches-Sound p s t fits (then_step r h) sound =
    Happens-Sound p fits _ t h (Reaches-Sound p s _ fits r sound)
