-- ===== src/Json/Lookup.antt =====
-- Looking a member up in an object that has been built.
use pjsocky.Json.{Value, Members, end, member, object, add_member, find_member, find}
use pjsocky.Prelude.{String, str_eq, ◌≡◌, refl, none, some, arith, if◌then◌else◌}

-- Members are read by the first of their name, so an addition is seen unless the name was taken.
find-add_member :
    (ms : Members) (name other : String) (v : Value)
    → find (some (object (add_member ms name v))) other ≡ elim (find (some (object ms)) other) [
      | some w ↦ some w
      | none ↦ if str_eq name other then some v else none
    ]
unfolding find find_member add_member
find-add_member end name other v = refl
find-add_member (member k w ms) name other v = ground (arith, find-add_member ms name other v)
