-- ===== src/Nameservers/Tests.antt =====
-- Runs of configure_nameservers.
use pjsocky.Nameservers.{is_env_delim, configure_nameservers}
use pjsocky.Nameservers.File.{Line, blank, bare, server, other, text, configure_nameservers-text}
use pjsocky.Nameservers.Tokens.{Entry, IsEntry, print, configure_nameservers-print}
use pjsocky.Prelude.{ℕ, ◌≡◌, refl, false, none, some, List, [], ◌∷◌, map, arith}

abbrev entry : ℕ → Entry
entry c = record { first = b','; others = b' ' ∷ []; initial = c; name = [] }

after_comma : (c : ℕ) → is_env_delim c ≡ false → IsEntry is_env_delim (entry c)
after_comma c h = (refl, (refl, tt), h, tt)

-- " a, b, c, d, e,"
abbrev five : List Entry
five = entry b'b' ∷ entry b'c' ∷ entry b'd' ∷ entry b'e' ∷ []

configure_nameservers-print_example :
    configure_nameservers (some (b' ' ∷ b'a' ∷ print five (b',' ∷ []))) none
    ≡ (b'a' ∷ []) ∷ (b'b' ∷ []) ∷ (b'c' ∷ []) ∷ (b'd' ∷ []) ∷ []
configure_nameservers-print_example =
    configure_nameservers-print (b' ' ∷ []) b'a' [] five (b',' ∷ []) none (refl, tt) refl tt
      (
        after_comma b'b' refl,
        (after_comma b'c' refl, (after_comma b'd' refl, (after_comma b'e' refl, tt))),
      )
      (refl, tt) (omega arith)

-- A comment, an empty line, a server with something after it and the keyword alone.
abbrev lines : List Line
lines =
    other [] b'#' [] b' ' (b'x' ∷ [])
    ∷ blank (b'\n' ∷ [])
    ∷ server [] b' ' (b'\t' ∷ []) b'1' (b'0' ∷ []) b' ' (b'#' ∷ b'\n' ∷ [])
    ∷ bare [] b'\n' []
    ∷ []

configure_nameservers-text_example :
    (configure_nameservers none (some (map text lines)) ≡ (b'1' ∷ b'0' ∷ []) ∷ [])
    × (configure_nameservers (some []) (some (map text lines)) ≡ (b'1' ∷ b'0' ∷ []) ∷ [])
configure_nameservers-text_example = configure_nameservers-text lines (
  (tt, refl, tt, refl, refl),
  ((refl, tt), ((tt, refl, (refl, tt), refl, (refl, tt), refl), ((tt, refl, tt), tt))),
)
