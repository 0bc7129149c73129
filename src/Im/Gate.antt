-- ===== src/Im/Gate.antt =====
-- Messages, typing indications and calls go out only for a registered account.
use pjsocky.Call.Commands.{dial}
use pjsocky.Im.{send_message, typing}
use pjsocky.Pjlib.{Pjlib, Request, History, im_send, im_typing, make_call, invalid_id, latest}
use pjsocky.World.{World}
use pjsocky.Prelude.{
  String, ◌≡◌, Bool, true, false, not, ◌&&◌, Option, none, some, [], ◌∷◌, arith, ℤ, is_equal,
  Status, Result, failure, einvalidop, err,
}

-- There is an account, and its last registration succeeded.
abbrev pub may_talk : World → Bool
may_talk w = not (is_equal w.acc_id invalid_id) && w.registered

-- The account that a request speaks for, if it is one that goes out to a peer.
abbrev pub speaks_for : Option Request → Option ℤ
speaks_for (some (im_send id to mime_type content)) = some id
speaks_for (some (im_typing id to is_typing)) = some id
speaks_for (some (make_call id uri setting)) = some id
speaks_for _ = none

abbrev earlier : History → History
earlier [] = []
earlier (q ∷ h) = h

abbrev pub is_invalid_status : Status → Bool
is_invalid_status (failure einvalidop) = true
is_invalid_status _ = false

abbrev pub is_invalid_result : Result ℤ → Bool
is_invalid_result (err einvalidop) = true
is_invalid_result _ = false

abbrev pub Gated : World → Bool → World → Type 0
Gated w invalid v =
    (may_talk w ≡ true
      → (speaks_for (latest v.history) ≡ some w.acc_id) × (earlier v.history ≡ w.history))
    × (may_talk w ≡ false → (invalid ≡ true) × (v ≡ w))

module _ (p : Pjlib) (w : World) where
  send_message-Gated :
      (to content mime_type : String)
      → let r = send_message p to content mime_type w in Gated w (is_invalid_status r.0) r.1
  unfolding send_message
  send_message-Gated to content mime_type = ground arith

  typing-Gated :
      (to : String) (b : Bool) → let r = typing p to b w in Gated w (is_invalid_status r.0) r.1
  unfolding typing
  typing-Gated to b = ground arith

  dial-Gated :
      (uri : String) (with_video : Bool)
      → let r = dial p uri with_video w in Gated w (is_invalid_result r.0) r.1
  unfolding dial
  dial-Gated uri with_video = ground arith

-- Sending a message, a typing indication or a call: for a registered account there is exactly one
-- request more, made for that account; without one nothing is asked, nothing changes, and the operation
-- is refused as invalid.
pub outgoing-Gated :
    (p : Pjlib) (to content mime_type : String) (flag : Bool) (w : World)
    → let message = send_message p to content mime_type w in
      let indication = typing p to flag w in
      let call = dial p to flag w in
      Gated w (is_invalid_status message.0) message.1
      × Gated w (is_invalid_status indication.0) indication.1
      × Gated w (is_invalid_result call.0) call.1
outgoing-Gated p to content mime_type flag w =
    (send_message-Gated p w to content mime_type, typing-Gated p w to flag, dial-Gated p w to flag)
