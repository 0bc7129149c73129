-- ===== src/Framing/Buffer/Tests.antt =====
-- Runs of the line buffer.
use pjsocky.Framing.Buffer.{Framing, cleared, received, fill, newline, reclaim, max_line, room}
use pjsocky.Framing.Buffer.Drain.{Drained, Drains, drain, drain-Drains}
use pjsocky.Framing.Buffer.Step.{IsValid, Gains, delivered, fill-Gains}
use pjsocky.Prelude.{ℕ, ◌+◌, ◌≤◌, ◌≡◌, refl, some, List, [], ◌∷◌, arith, length, length-replicate}

cleared-IsValid : IsValid cleared
unfolding cleared
cleared-IsValid = record { within = omega arith; sized = length-replicate {A = ℕ} (max_line + 1) 0 }

abbrev two_lines : List ℕ
two_lines = b'a' ∷ newline ∷ b'b' ∷ b'c' ∷ newline ∷ b'd' ∷ []

two_lines-fits : length (delivered (received two_lines)) ≤ room cleared
unfolding cleared delivered
two_lines-fits = omega arith

fill-Gains_example :
    Gains cleared (delivered (received two_lines)) (fill cleared (received two_lines)).0
fill-Gains_example = fill-Gains cleared (received two_lines) cleared-IsValid two_lines-fits

abbrev held : Framing
held = (fill cleared (received two_lines)).0

held-len : held.len ≡ 6
unfolding fill cleared reclaim
held-len = refl

drain-Drains_example : (d : Drained) × (drain 9 held ≡ some d) × Drains held d
drain-Drains_example = drain-Drains 9 held fill-Gains_example.0 (omega (arith, held-len))
