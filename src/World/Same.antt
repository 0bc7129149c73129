-- ===== src/World/Same.antt =====
-- States that differ in the history of requests alone.
use pjsocky.World.{World}
use pjsocky.Prelude.{◌≡◌, ap, ◌∙◌}

-- A state that differs in its history alone.
abbrev pub SameState : World → World → Type 0
SameState w v = v ≡ record w { history = v.history }

pub SameState-trans : (u v w : World) → SameState u v → SameState v w → SameState u w
SameState-trans u v w a b = b ∙ ap {B = World} (λ x. record x { history = w.history }) a
