-- ===== src/Dispatch/Line/Response.antt =====
-- The shape of every response.
use pjsocky.Dispatch.Line.{
  Command, run, error_code_for, fail, succeed, answered, run_found, run_named, run_identified,
  parsed, dispatch_line,
}
use pjsocky.Json.{
  Value, null, bool, number, string, array, object, Members, find, add_member, add_bool, add_string,
  find_member,
}
use pjsocky.Pjlib.{Pjlib}
use pjsocky.World.{World}
use pjsocky.Prelude.{
  String, ℕ, ◌≡◌, refl, ◌⊎◌, inl, inr, true, false, Option, none, some, List, Error, Result, einval,
  eexists, einvalidop, enotfound, eeof, epending, etoobig, etimedout, enomem, enametoolong,
  evid_invdev, evid_invcap, os, other, ok, err,
}

-- The protocol's error codes.
pub IsCode : String → Type 0
IsCode s =
    (s ≡ "bad_request")
    ⊎ ((s ≡ "unknown_command")
        ⊎ ((s ≡ "invalid_params") ⊎ ((s ≡ "invalid_state") ⊎ (s ≡ "pjsua_error"))))

-- {"id":id,"ok":true,"result":{..}}
pub IsResult : String → Value → Type 0
IsResult id v =
    (find (some v) "id" ≡ some (string id))
    × (find (some v) "ok" ≡ some (bool true))
    × ((result : Members) × (find (some v) "result" ≡ some (object result)))
    × (find (some v) "error" ≡ none)

-- {"id":id,"ok":false,"error":{"code":..,"message":..}}
pub IsError : String → Value → Type 0
IsError id v =
    (find (some v) "id" ≡ some (string id))
    × (find (some v) "ok" ≡ some (bool false))
    × ((code : String) × IsCode code
        × (find (find (some v) "error") "code" ≡ some (string code))
        × ((message : String) × (find (find (some v) "error") "message" ≡ some (string message))))
    × (find (some v) "result" ≡ none)

pub IsResponse : String → Value → Type 0
IsResponse id v = IsResult id v ⊎ IsError id v

fail-IsError : (id code message : String) → IsCode code → IsResponse id (fail id code message)
unfolding IsResponse IsError fail find find_member add_member add_bool add_string
fail-IsError id code message good = inr (refl, refl, (code, good, refl, (message, refl)), refl)

succeed-IsResult : (id : String) (result : Members) → IsResponse id (succeed id result)
unfolding IsResponse IsResult succeed find find_member add_member add_bool
succeed-IsResult id result = inl (refl, refl, (result, refl), refl)

error_code_for-IsCode : (e : Error) → IsCode (error_code_for e)
unfolding error_code_for IsCode
error_code_for-IsCode eexists = inr (inr (inr (inl refl)))
error_code_for-IsCode einvalidop = inr (inr (inr (inl refl)))
error_code_for-IsCode einval = inr (inr (inl refl))
error_code_for-IsCode enotfound = inr (inr (inr (inr refl)))
error_code_for-IsCode eeof = inr (inr (inr (inr refl)))
error_code_for-IsCode epending = inr (inr (inr (inr refl)))
error_code_for-IsCode etoobig = inr (inr (inr (inr refl)))
error_code_for-IsCode etimedout = inr (inr (inr (inr refl)))
error_code_for-IsCode enomem = inr (inr (inr (inr refl)))
error_code_for-IsCode enametoolong = inr (inr (inr (inr refl)))
error_code_for-IsCode evid_invdev = inr (inr (inr (inr refl)))
error_code_for-IsCode evid_invcap = inr (inr (inr (inr refl)))
error_code_for-IsCode (os n) = inr (inr (inr (inr refl)))
error_code_for-IsCode (other n) = inr (inr (inr (inr refl)))

module _ (p : Pjlib) where
  answered-IsResponse : (id : String) (r : Result Members) → IsResponse id (answered p id r)
  unfolding answered
  answered-IsResponse id (ok result) = succeed-IsResult id result
  answered-IsResponse id (err e) = fail-IsError id _ _ (error_code_for-IsCode e)

  run_found-IsResponse :
      (id : String) (params : Option Value) (c : Option Command) (w : World)
      → IsResponse id (run_found p id params c w).0
  unfolding run_found
  run_found-IsResponse id params none w = fail-IsError id _ _ (unfold IsCode in inr (inl refl))
  run_found-IsResponse id params (some c) w = answered-IsResponse id (run p c params w).0

  run_named-IsResponse :
      (id : String) (request : Value) (cmd : Option Value) (w : World)
      → IsResponse id (run_named p id request cmd w).0
  unfolding run_named IsCode
  run_named-IsResponse id request (some (string name)) w = run_found-IsResponse id _ _ w
  run_named-IsResponse id request (some null) w = fail-IsError id _ _ (inl refl)
  run_named-IsResponse id request (some (bool b)) w = fail-IsError id _ _ (inl refl)
  run_named-IsResponse id request (some (number x)) w = fail-IsError id _ _ (inl refl)
  run_named-IsResponse id request (some (array vs)) w = fail-IsError id _ _ (inl refl)
  run_named-IsResponse id request (some (object ms)) w = fail-IsError id _ _ (inl refl)
  run_named-IsResponse id request none w = fail-IsError id _ _ (inl refl)

-- The "id" of a request that is an object with a string of that name.
abbrev string_id : Option Value → Option String
string_id (some (string id)) = some id
string_id _ = none

abbrev pub request_id : Option Value → Option String
request_id request = string_id (find request "id")

-- A request with an id gets a response with the same id; any other gets none, and runs nothing.
pub Answers : Option String → World → Option Value × World → Type 0
Answers none w r = r ≡ (none, w)
Answers (some id) w (none, v) = false ≡ true
Answers (some id) w (some response, v) = IsResponse id response

run_identified-Answers :
    (p : Pjlib) (request : Value) (id : Option Value) (w : World)
    → Answers (string_id id) w (run_identified p request id w)
unfolding run_identified Answers
run_identified-Answers p request (some (string id)) w = run_named-IsResponse p id request _ w
run_identified-Answers p request (some null) w = refl
run_identified-Answers p request (some (bool b)) w = refl
run_identified-Answers p request (some (number x)) w = refl
run_identified-Answers p request (some (array vs)) w = refl
run_identified-Answers p request (some (object ms)) w = refl
run_identified-Answers p request none w = refl

parsed-Answers :
    (p : Pjlib) (request : Option Value) (w : World)
    → Answers (request_id request) w (parsed p request w)
unfolding parsed Answers find
parsed-Answers p (some (object ms)) w = run_identified-Answers p (object ms) _ w
parsed-Answers p (some null) w = refl
parsed-Answers p (some (bool b)) w = refl
parsed-Answers p (some (number x)) w = refl
parsed-Answers p (some (array vs)) w = refl
parsed-Answers p (some (string s)) w = refl
parsed-Answers p none w = refl

-- A line that is a JSON object with a string "id" gets exactly one response: it repeats the id, and either is
-- ok with a "result" object and no "error", or is not ok with an "error" that has one of the five
-- codes and a message, and no "result". Any other line gets no response and changes nothing.
pub dispatch_line-Answers :
    (p : Pjlib) (line : List ℕ) (w : World)
    → Answers (request_id (p.json_parse line)) w (dispatch_line p line w)
unfolding dispatch_line
dispatch_line-Answers p line w = parsed-Answers p (p.json_parse line) w
