-- ===== src/Protocol/Message.antt =====
-- docs/PROTOCOL.md: what a message is, an event or a response, and the shape of each event's data.
use pjsocky.Dispatch.Line.{Command}
use pjsocky.Json.{Value, bool, string, object, Members, end, member}
use pjsocky.Protocol.{
  text, num, flag, word, Fields, nothing, field, has_fields, has_one_of, version_fields,
  call_states, result_fields,
}
use pjsocky.Prelude.{String, str_eq, ◌≡◌, Bool, true, false, List, [], ◌∷◌, if◌then◌else◌}

-- The codes of "Errors".
abbrev pub error_codes : List String
error_codes =
    "bad_request" ∷ "unknown_command" ∷ "invalid_params" ∷ "invalid_state" ∷ "not_found"
    ∷ "connection_refused" ∷ "pjsua_error" ∷ "internal_error" ∷ []

abbrev pub error_fields : Fields
error_fields = field "code" (word error_codes) (field "message" text nothing)

-- "Events"
abbrev pub events : List (String × Fields)
events =
    ("hello", version_fields)
    ∷ ("error", error_fields)
    ∷ (
      "reg_state",
      field "acc_id" num
          (field "status" num (field "status_text" text (field "registered" flag nothing))),
    )
    ∷ (
      "incoming_call",
      field "call_id" num (field "acc_id" num (field "from" text (field "has_video" flag nothing))),
    )
    ∷ (
      "call_state",
      field "call_id" num (
          field "state" (word call_states)
            (field "last_status" num (field "last_status_text" text nothing))),
    )
    ∷ (
      "call_media_state",
      field "call_id" num (field "has_audio" flag (field "has_video" flag nothing)),
    )
    ∷ (
      "incoming_message",
      field "from" text (field "to" text (field "mime_type" text (field "body" text nothing))),
    )
    ∷ (
      "message_status",
      field "to" text (field "body" text (field "status" num (field "reason" text nothing))),
    )
    ∷ ("typing", field "from" text (field "to" text (field "is_typing" flag nothing)))
    ∷ []

abbrev pub is_event_of : List (String × Fields) → String → Members → Bool
is_event_of [] name ms = false
is_event_of ((k, fs) ∷ rest) name ms =
    if str_eq name k then has_fields fs ms else is_event_of rest name ms

pub data IsMessage : Value → Type 0 where
  event :
      (name : String) (ms : Members)
      → is_event_of events name ms ≡ true
      → IsMessage (object (member "event" (string name) (member "data" (object ms) end)))
  result :
      (id : String) (c : Command) (ms : Members)
      → has_one_of (result_fields c) ms ≡ true
      → IsMessage (
          object
            (member "id" (string id) (member "ok" (bool true) (member "result" (object ms) end))))
  failed :
      (id : String) (ms : Members)
      → has_fields error_fields ms ≡ true
      → IsMessage (
          object
            (member "id" (string id) (member "ok" (bool false) (member "error" (object ms) end))))

-- Every value of a list.
abbrev pub Messages : List Value → Type 0
Messages [] = Unit {0}
Messages (v ∷ vs) = IsMessage v × Messages vs
