-- ===== src/Im.antt =====
-- src/im.c: instant messages and typing indications, out of any dialog.
pub mod Gate
pub mod Said
mod Tests
use pjsocky.Events.{push}
use pjsocky.Json.{Members, end, add_str, add_number, add_bool}
use pjsocky.Number.Defs.{of_unsigned}
use pjsocky.Pjlib.{Pjlib, Request, im_send, im_typing, invalid_id}
use pjsocky.World.{World, M, ask, account_get_id, account_is_registered}
use pjsocky.Prelude.{
  String, ℕ, Bool, not, ◌||◌, if◌then◌else◌, is_equal, Status, failure, einvalidop,
}

unfoldable pub build_incoming_message_data : (from to mime_type body : String) → Members
build_incoming_message_data from to mime_type body =
    add_str (add_str (add_str (add_str end "from" from) "to" to) "mime_type" mime_type) "body" body

unfoldable pub build_message_status_data : (to body : String) → ℕ → (reason : String) → Members
build_message_status_data to body status reason =
    add_str (add_number (add_str (add_str end "to" to) "body" body) "status" (of_unsigned status))
      "reason" reason

unfoldable pub build_typing_data : (from to : String) → Bool → Members
build_typing_data from to is_typing =
    add_bool (add_str (add_str end "from" from) "to" to) "is_typing" is_typing

module _ (p : Pjlib) where
  unfoldable pub send_message : (to content mime_type : String) → M Status
  send_message to content mime_type w =
      if is_equal (account_get_id w) invalid_id || not (account_is_registered w)
      then (failure einvalidop, w)
      else ask (im_send (account_get_id w) to mime_type content) p.im_send w

  unfoldable pub typing : (to : String) → Bool → M Status
  typing to is_typing w =
      if is_equal (account_get_id w) invalid_id || not (account_is_registered w)
      then (failure einvalidop, w)
      else ask (im_typing (account_get_id w) to is_typing) p.im_typing w

  unfoldable pub on_pager2 : (from to mime_type body : String) → World → World
  on_pager2 from to mime_type body w =
      (push p "incoming_message" (build_incoming_message_data from to mime_type body) w).1

  unfoldable pub on_pager_status2 : (to body : String) → ℕ → (reason : String) → World → World
  on_pager_status2 to body status reason w =
      (push p "message_status" (build_message_status_data to body status reason) w).1

  unfoldable pub on_typing2 : (from to : String) → Bool → World → World
  on_typing2 from to is_typing w = (push p "typing" (build_typing_data from to is_typing) w).1
