-- ===== src/Dispatch/Messages/Typed.antt =====
-- The results of im.*.
use pjsocky.Dispatch.Messages.{im_send_with, cmd_im_send, im_typing_with, cmd_im_typing}
use pjsocky.Im.{send_message, typing}
use pjsocky.Json.{Value}
use pjsocky.Pjlib.{Pjlib}
use pjsocky.Protocol.{nothing}
use pjsocky.Protocol.Typed.{Typed, no_result-Typed}
use pjsocky.World.{World}
use pjsocky.Prelude.{String, Bool, Option, none, some, [], ◌∷◌}

module _ (p : Pjlib) where
  im_send_with-Typed :
      (to content : Option String) (mime_type : String) (w : World)
      → Typed (nothing ∷ []) (im_send_with p to content mime_type w).0
  unfolding im_send_with
  im_send_with-Typed (some to) (some content) mime_type w =
      no_result-Typed (send_message p to content mime_type) w
  im_send_with-Typed none content mime_type w = tt
  im_send_with-Typed (some to) none mime_type w = tt

  im_typing_with-Typed :
      (to : Option String) (b : Option Bool) (w : World)
      → Typed (nothing ∷ []) (im_typing_with p to b w).0
  unfolding im_typing_with
  im_typing_with-Typed (some to) (some b) w = no_result-Typed (typing p to b) w
  im_typing_with-Typed none b w = tt
  im_typing_with-Typed (some to) none w = tt

  pub cmd_im_send-Typed :
      (params : Option Value) (w : World) → Typed (nothing ∷ []) (cmd_im_send p params w).0
  unfolding cmd_im_send
  cmd_im_send-Typed params w = im_send_with-Typed _ _ _ w

  pub cmd_im_typing-Typed :
      (params : Option Value) (w : World) → Typed (nothing ∷ []) (cmd_im_typing p params w).0
  unfolding cmd_im_typing
  cmd_im_typing-Typed params w = im_typing_with-Typed _ _ w
