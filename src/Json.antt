-- ===== src/Json.antt =====
-- JSON values as pjlib-util holds them, and src/proto/jsonutil.c: lookup of a member and the
-- builders of members. pj_json_parse and pj_json_write are not part of the program: they are
-- fields of the environment (Pjlib.antt).
pub mod Lookup
mod Tests
use pjsocky.Number.Defs.{Float}
use pjsocky.Prelude.{Bool, Option, none, some, String, str_eq, if◌then◌else◌}

mutual
  pub data Value : Type 0 where
    null : Value
    bool : Bool → Value
    number : Float → Value
    string : String → Value
    array : Items → Value
    object : Members → Value

  pub data Items : Type 0 where
    nil : Items
    cons : Value → Items → Items

  -- The members of an object in the order they were added.
  pub data Members : Type 0 where
    end : Members
    member : String → Value → Members → Members

-- pj_json_elem_add: a new member or element goes to the end.
unfoldable pub add_member : Members → String → Value → Members
add_member end name v = member name v end
add_member (member k w ms) name v = member k w (add_member ms name v)

unfoldable pub add_item : Items → Value → Items
add_item nil v = cons v nil
add_item (cons w vs) v = cons w (add_item vs v)

unfoldable pub find_member : Members → String → Option Value
find_member end name = none
find_member (member k v ms) name = if str_eq k name then some v else find_member ms name

-- pjsocky_json_find; `none` is a NULL object or an absent member.
unfoldable pub find : Option Value → String → Option Value
find (some (object ms)) name = find_member ms name
find _ name = none

unfoldable pub add_bool : Members → String → Bool → Members
unfolding add_member
add_bool obj name val = add_member obj name (bool val)

unfoldable pub add_string : Members → String → String → Members
unfolding add_member
add_string obj name val = add_member obj name (string val)

-- pjsocky_json_add_str: the same for a counted string.
unfoldable pub add_str : Members → String → String → Members
unfolding add_member
add_str obj name val = add_member obj name (string val)

unfoldable pub add_number : Members → String → Float → Members
unfolding add_member
add_number obj name val = add_member obj name (number val)
