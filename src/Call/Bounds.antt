-- ===== src/Call/Bounds.antt =====
-- Call ids that a client gives are checked before pjsua-lib sees them: there an id out of range aborts
-- the process.
use pjsocky.Call.Commands.{hangup, answer}
use pjsocky.Call.Info.{get_info}
use pjsocky.Call.{is_valid_call_id}
use pjsocky.Pjlib.{
  Pjlib, Request, History, call_hangup, call_answer, call_get_info, call_get_stream_stat,
  call_get_max_count,
}
use pjsocky.World.{World}
use pjsocky.Prelude.{
  ℕ, ◌≡◌, Bool, true, false, not, ◌&&◌, Option, none, some, [], ◌∷◌, arith, ℤ, is_negative, ltb_ℤ,
  pos, Status, is_ok, failure, einval,
}

-- The call id of a request that pjsua-lib checks with an assertion.
abbrev pub asserted_id : Request → Option ℤ
asserted_id (call_hangup id code) = some id
asserted_id (call_answer id setting code) = some id
asserted_id (call_get_info id) = some id
asserted_id (call_get_stream_stat id index) = some id
asserted_id _ = none

abbrev pub in_range : ℕ → ℤ → Bool
in_range limit id = not (is_negative id) && ltb_ℤ id (pos limit)

abbrev checked : ℕ → Option ℤ → Bool
checked limit none = true
checked limit (some id) = in_range limit id

-- All of the requests are about calls in range.
unfoldable pub in_bounds : ℕ → History → Bool
in_bounds limit [] = true
in_bounds limit (q ∷ h) = let rest = in_bounds limit h in checked limit (asserted_id q) && rest

-- The number of calls that pjsua-lib has room for does not change.
abbrev pub HasLimit : Pjlib → ℕ → Type 0
HasLimit p limit = (h : History) → p.call_get_max_count (call_get_max_count ∷ h) ≡ limit

module _ (p : Pjlib) (limit : ℕ) (limited : HasLimit p limit) (id : ℤ) (w : World)
    (before : in_bounds limit w.history ≡ true) where
  hangup-bounds : (code : ℕ) → in_bounds limit (hangup p id code w).1.history ≡ true
  unfolding hangup is_valid_call_id in_bounds
  hangup-bounds code = ground (arith, limited w.history)

  answer-bounds : (code : ℕ) (b : Bool) → in_bounds limit (answer p id code b w).1.history ≡ true
  unfolding answer is_valid_call_id in_bounds
  answer-bounds code b = ground (arith, limited w.history)

  get_info-bounds : in_bounds limit (get_info p id w).1.history ≡ true
  unfolding get_info is_valid_call_id in_bounds
  get_info-bounds = ground (arith, limited w.history)

-- The answers of a call id that is out of range.
abbrev Rejected : Status → Status → Bool → Type 0
Rejected a b c = (a ≡ failure einval) × (b ≡ failure einval) × (c ≡ false)

-- Whatever call id a client gives to hang up, answer or look at a call: pjsua-lib is asked only about
-- ids from 0 up to the number of calls it has room for, and any other id is an invalid parameter. The
-- condition is that this number does not change.
pub checked_bounds :
    (p : Pjlib) (limit : ℕ) (id : ℤ) (code : ℕ) (with_video : Bool) (w : World)
    → HasLimit p limit
    → in_bounds limit w.history ≡ true
    → let a = hangup p id code w in
      let b = answer p id code with_video w in
      let c = get_info p id w in
      (in_bounds limit a.1.history ≡ true)
      × (in_bounds limit b.1.history ≡ true)
      × (in_bounds limit c.1.history ≡ true)
      × (in_range limit id ≡ false → Rejected a.0 b.0 (is_ok c.0))
unfolding hangup answer get_info is_valid_call_id
checked_bounds p limit id code with_video w limited before = (
  hangup-bounds p limit limited id w before code,
  answer-bounds p limit limited id w before code with_video,
  get_info-bounds p limit limited id w before,
  ground (arith, limited w.history),
)
