-- ===== src/Events.antt =====
-- src/proto/events.c: responses and events on the current connection. The lock serialises the calls;
-- a call is one step of the model.
pub mod Push
pub mod Said
mod Tests
use pjsocky.Framing.Buffer.{max_line}
use pjsocky.Framing.Send.{write_json}
use pjsocky.Json.{Value, object, Members, end, add_string, add_member}
use pjsocky.Pjlib.{Pjlib, Request, pool_create}
use pjsocky.World.{World, Connection, M, ◌>>=◌, pure, ask}
use pjsocky.Prelude.{String, ℕ, Option, none, some, if◌then◌else◌, Status, failure, success, enomem}

unfoldable pub set_conn : Option Connection → M (Unit {0})
set_conn framing w = (tt, record w { connection = framing })

-- {"event":name,"data":{...}}
unfoldable pub envelope : String → Members → Value
unfolding add_string add_member
envelope event_name data_members =
    object (add_member (add_string end "event" event_name) "data" (object data_members))

module _ (p : Pjlib) where
  write_response_to : Option Connection → Value → ℕ → M Status
  write_response_to none response scratch_size = pure success
  write_response_to (some c) response scratch_size = write_json p c response scratch_size

  unfoldable pub write_response : Value → ℕ → M Status
  unfolding write_response_to
  write_response response scratch_size w = write_response_to w.connection response scratch_size w

  push_to : Option Connection → String → Members → M Status
  push_to none event_name members = pure success
  push_to (some c) event_name members = do
    pool ← ask pool_create p.pool_create
    if pool then write_json p c (envelope event_name members) max_line else pure (failure enomem)

  -- `members` is what the builder puts into "data".
  unfoldable pub push : String → Members → M Status
  unfolding push_to
  push event_name members w = push_to w.connection event_name members w
