-- ===== src/Protocol/Said.antt =====
-- What the daemon has said: the values that were given to pj_json_write(), newest first.
use pjsocky.Json.{Value}
use pjsocky.Pjlib.{History, json_write}
use pjsocky.Protocol.Message.{Messages}
use pjsocky.World.{World}
use pjsocky.Prelude.{◌≡◌, sym, subst, List, [], ◌∷◌}

abbrev pub said : History → List Value
said [] = []
said (json_write v size ∷ h) = v ∷ said h
said (_ ∷ h) = said h

-- Nothing is said in between.
abbrev pub Silent : World → World → Type 0
Silent w v = said v.history ≡ said w.history

-- All that was said is messages.
abbrev pub Proper : World → Type 0
Proper w = Messages (said w.history)

pub Silent-Proper : (w v : World) → Silent w v → Proper w → Proper v
Silent-Proper w v e = subst Messages (sym e)
