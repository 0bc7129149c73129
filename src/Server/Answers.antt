-- ===== src/Server/Answers.antt =====
-- What the client of the connection is answered to a line.
use pjsocky.Dispatch.Line.{dispatch_line}
use pjsocky.Dispatch.Line.Keeps.{dispatch_line-Frame}
use pjsocky.Dispatch.Line.Said.{dispatch_line-Replies}
use pjsocky.Events.{envelope}
use pjsocky.Events.Said.{write_response-said, push-said}
use pjsocky.Framing.Buffer.{max_line}
use pjsocky.Json.{Value}
use pjsocky.Pjlib.{Pjlib, History, pool_create}
use pjsocky.Protocol.Said.{said}
use pjsocky.Server.{build_error_event_data, push_error_event, respond, handle_line}
use pjsocky.World.{World, Connection}
use pjsocky.Prelude.{ℕ, ◌≡◌, ap, ◌∙◌, true, Option, none, some, List, ◌∷◌}

-- The event for a line that has no request with an id.
abbrev pub no_request : Value
no_request =
    envelope "error" (build_error_event_data "bad_request" "not a JSON object with a string \"id\"")

-- Exactly one value is said: the response, or else the event.
abbrev pub SaysOne : Option Value → History → History → Type 0
SaysOne (some response) h k = said k ≡ response ∷ said h
SaysOne none h k = said k ≡ no_request ∷ said h

module _ (p : Pjlib) (pools : (h : History) → p.pool_create h ≡ true) (c : Connection) where
  respond-SaysOne :
      (r : Option Value) (w : World)
      → w.connection ≡ some c
      → SaysOne r w.history (respond p r w).1.history
  unfolding respond push_error_event
  respond-SaysOne (some v) w on = write_response-said p v max_line w c on
  respond-SaysOne none w on = push-said p _ _ w c on (pools (pool_create ∷ w.history))

  SaysOne-after :
      (r : Option Value) (g h k : History) → said h ≡ said g → SaysOne r h k → SaysOne r g k
  SaysOne-after none g h k e one = one ∙ ap (◌∷◌ no_request) e
  SaysOne-after (some v) g h k e one = one ∙ ap (◌∷◌ v) e

  -- With a client that is served and pools to be had, a line is answered by exactly one value, whatever
  -- it holds and however pjsua-lib answers: by the response of the command line, or, where that
  -- has none, by an "error" event with the code "bad_request". Nothing else is said before or after.
  pub handle_line-SaysOne :
      (bytes : List ℕ) (w : World)
      → w.connection ≡ some c
      → SaysOne (dispatch_line p bytes w).0 w.history (handle_line p bytes w).1.history
  unfolding handle_line
  handle_line-SaysOne bytes w on =
      let r = dispatch_line p bytes w in
      SaysOne-after r.0 w.history r.1.history _ (dispatch_line-Replies p bytes w).0 (
        respond-SaysOne r.0 r.1
          (ap {A = World} (λ x. x.connection) (dispatch_line-Frame p bytes w) ∙ on))
