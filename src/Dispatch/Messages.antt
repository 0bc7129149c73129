-- ===== src/Dispatch/Messages.antt =====
-- src/proto/dispatch.c: the im.* commands.
pub mod Keeps
pub mod Said
pub mod Typed
use pjsocky.Dispatch.Handler.{Handler, no_result, invalid_params}
use pjsocky.Dispatch.Params.{get_string_member, get_bool_member, or_default}
use pjsocky.Im.{send_message, typing}
use pjsocky.Json.{Members}
use pjsocky.Pjlib.{Pjlib}
use pjsocky.World.{M}
use pjsocky.Prelude.{String, Bool, Option, some, Result}

module _ (p : Pjlib) where
  im_send_with : (to content : Option String) → String → M (Result Members)
  im_send_with (some to) (some content) mime_type = no_result (send_message p to content mime_type)
  im_send_with _ _ mime_type = invalid_params

  unfoldable pub cmd_im_send : Handler
  unfolding im_send_with
  cmd_im_send params =
      im_send_with (get_string_member params "to") (get_string_member params "content")
        (or_default (get_string_member params "mime_type") "text/plain")

  im_typing_with : Option String → Option Bool → M (Result Members)
  im_typing_with (some to) (some is_typing) = no_result (typing p to is_typing)
  im_typing_with _ _ = invalid_params

  unfoldable pub cmd_im_typing : Handler
  unfolding im_typing_with
  cmd_im_typing params =
      im_typing_with (get_string_member params "to") (get_bool_member params "is_typing")
