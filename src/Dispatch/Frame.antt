-- ===== src/Dispatch/Frame.antt =====
-- The part of the state that commands leave alone.
use pjsocky.World.{World}
use pjsocky.Prelude.{◌≡◌, sym, ap, ◌∙◌}

-- Commands change the account, the devices, the current call's id and the ring timeout: neither the
-- timers and the video of the calls nor the connection.
abbrev pub Frame : World → World → Type 0
Frame w v = v ≡ record w {
  history = v.history;
  acc_id = v.acc_id;
  registered = v.registered;
  video_capture_id = v.video_capture_id;
  call_id = v.call_id;
  ring_timeout_sec = v.ring_timeout_sec;
}

pub Frame-trans : (u v w : World) → Frame u v → Frame v w → Frame u w
Frame-trans u v w a b =
    b
    ∙ ap {B = World}
        (λ x. record x {
          history = w.history;
          acc_id = w.acc_id;
          registered = w.registered;
          video_capture_id = w.video_capture_id;
          call_id = w.call_id;
          ring_timeout_sec = w.ring_timeout_sec;
        })
        a

pub SameState-Frame : (w v : World) → v ≡ record w { history = v.history } → Frame w v
SameState-Frame w v e =
    e
    ∙ sym (
        ap {B = World}
          (λ x. record w {
            history = v.history;
            acc_id = x.acc_id;
            registered = x.registered;
            video_capture_id = x.video_capture_id;
            call_id = x.call_id;
            ring_timeout_sec = x.ring_timeout_sec;
          })
          e)
