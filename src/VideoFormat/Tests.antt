-- ===== src/VideoFormat/Tests.antt =====
-- Runs of the parsing of the video format.
use pjsocky.VideoFormat.{parse_size}
use pjsocky.VideoFormat.Parse.{parse_size-value}
use pjsocky.Prelude.{ℕ, ◌-◌, ◌^◌, ◌≡◌, refl, [], ◌∷◌, arith}

abbrev ulong_max : ℕ
ulong_max = 2 ^ 32 - 1

-- "64x048"
parse_size-value_example :
    parse_size ulong_max (b'6' ∷ b'4' ∷ b'x' ∷ b'0' ∷ b'4' ∷ b'8' ∷ []) ≡ (64, 48)
parse_size-value_example =
    parse_size-value ulong_max b'6' (b'4' ∷ []) b'x' b'0' (b'4' ∷ b'8' ∷ []) (omega arith)
      (refl, (refl, tt)) refl (refl, (refl, (refl, tt)))
