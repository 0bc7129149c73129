-- ===== src/Dispatch/Messages/Said.antt =====
-- The im.* commands say nothing on their own.
use pjsocky.Protocol.Said.{Silent}
use pjsocky.Dispatch.Messages.{im_send_with, cmd_im_send, im_typing_with, cmd_im_typing}
use pjsocky.Im.{send_message, typing}
use pjsocky.Json.{Value}
use pjsocky.Pjlib.{Pjlib}
use pjsocky.World.{World}
use pjsocky.Prelude.{String, refl, Bool, Option, none, some, arith}

module _ (p : Pjlib) where
  send_message-Silent :
      (to content mime_type : String) (w : World)
      → Silent w (send_message p to content mime_type w).1
  unfolding send_message
  send_message-Silent to content mime_type w = ground arith

  typing-Silent : (to : String) (b : Bool) (w : World) → Silent w (typing p to b w).1
  unfolding typing
  typing-Silent to b w = ground arith

  im_send_with-Silent :
      (to content : Option String) (mime_type : String) (w : World)
      → Silent w (im_send_with p to content mime_type w).1
  unfolding im_send_with
  im_send_with-Silent (some to) (some content) mime_type w =
      send_message-Silent to content mime_type w
  im_send_with-Silent none content mime_type w = refl
  im_send_with-Silent (some to) none mime_type w = refl

  im_typing_with-Silent :
      (to : Option String) (b : Option Bool) (w : World) → Silent w (im_typing_with p to b w).1
  unfolding im_typing_with
  im_typing_with-Silent (some to) (some b) w = typing-Silent to b w
  im_typing_with-Silent none b w = refl
  im_typing_with-Silent (some to) none w = refl

  pub cmd_im_send-Silent : (params : Option Value) (w : World) → Silent w (cmd_im_send p params w).1
  unfolding cmd_im_send
  cmd_im_send-Silent params w = im_send_with-Silent _ _ _ w

  pub cmd_im_typing-Silent :
      (params : Option Value) (w : World) → Silent w (cmd_im_typing p params w).1
  unfolding cmd_im_typing
  cmd_im_typing-Silent params w = im_typing_with-Silent _ _ w
