-- ===== src/Dispatch/Messages/Keeps.antt =====
-- What the im.* commands leave alone.
use pjsocky.Dispatch.Frame.{Frame}
use pjsocky.Dispatch.Messages.{im_send_with, cmd_im_send, im_typing_with, cmd_im_typing}
use pjsocky.Im.{send_message, typing}
use pjsocky.Json.{Value}
use pjsocky.Pjlib.{Pjlib}
use pjsocky.World.{World}
use pjsocky.Prelude.{String, refl, Bool, Option, none, some, arith}

module _ (p : Pjlib) where
  send_message-Frame :
      (to content mime_type : String) (w : World)
      → Frame w (send_message p to content mime_type w).1
  unfolding send_message
  send_message-Frame to content mime_type w = ground arith

  typing-Frame : (to : String) (b : Bool) (w : World) → Frame w (typing p to b w).1
  unfolding typing
  typing-Frame to b w = ground arith

  im_send_with-Frame :
      (to content : Option String) (mime_type : String) (w : World)
      → Frame w (im_send_with p to content mime_type w).1
  unfolding im_send_with
  im_send_with-Frame (some to) (some content) mime_type w =
      send_message-Frame to content mime_type w
  im_send_with-Frame none content mime_type w = refl
  im_send_with-Frame (some to) none mime_type w = refl

  im_typing_with-Frame :
      (to : Option String) (b : Option Bool) (w : World) → Frame w (im_typing_with p to b w).1
  unfolding im_typing_with
  im_typing_with-Frame (some to) (some b) w = typing-Frame to b w
  im_typing_with-Frame none b w = refl
  im_typing_with-Frame (some to) none w = refl

  pub cmd_im_send-Frame : (params : Option Value) (w : World) → Frame w (cmd_im_send p params w).1
  unfolding cmd_im_send
  cmd_im_send-Frame params w = im_send_with-Frame _ _ _ w

  pub cmd_im_typing-Frame :
      (params : Option Value) (w : World) → Frame w (cmd_im_typing p params w).1
  unfolding cmd_im_typing
  cmd_im_typing-Frame params w = im_typing_with-Frame _ _ w
