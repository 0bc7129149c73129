-- ===== src/Im/Said.antt =====
-- What the callbacks of instant messages say.
use pjsocky.Events.{envelope}
use pjsocky.Events.Said.{push-Proper}
use pjsocky.Im.{
  build_incoming_message_data, build_message_status_data, build_typing_data, on_pager2,
  on_pager_status2, on_typing2,
}
use pjsocky.Json.{add_bool, add_string, add_str, add_number, add_member}
use pjsocky.Pjlib.{Pjlib}
use pjsocky.Protocol.Message.{event}
use pjsocky.Protocol.Said.{Proper}
use pjsocky.World.{World}
use pjsocky.Prelude.{String, ℕ, refl, Bool}

module _ (p : Pjlib) (w : World) (before : Proper w) where
  pub on_pager2-Proper :
      (from to mime_type body : String) → Proper (on_pager2 p from to mime_type body w)
  unfolding on_pager2 build_incoming_message_data envelope add_string add_str add_member
  on_pager2-Proper from to mime_type body = push-Proper p _ _ w (event _ _ refl) before

  pub on_pager_status2-Proper :
      (to body : String) (status : ℕ) (reason : String)
      → Proper (on_pager_status2 p to body status reason w)
  unfolding on_pager_status2 build_message_status_data envelope add_string add_str add_number
      add_member
  on_pager_status2-Proper to body status reason = push-Proper p _ _ w (event _ _ refl) before

  pub on_typing2-Proper :
      (from to : String) (is_typing : Bool) → Proper (on_typing2 p from to is_typing w)
  unfolding on_typing2 build_typing_data envelope add_bool add_string add_str add_member
  on_typing2-Proper from to is_typing = push-Proper p _ _ w (event _ _ refl) before
