-- ===== src/Framing/Compact/Tests.antt =====
-- Runs of compact_json.
use pjsocky.Framing.Buffer.{newline, find_newline}
use pjsocky.Framing.Compact.{compact_json, keeps, next}
use pjsocky.Framing.Compact.Tokens.{
  Token, blank, plain, text, raw, AreTokens, print, strip, compact_json-print,
}
use pjsocky.Prelude.{◌≤◌, ◌≡◌, refl, none, List, [], ◌∷◌, arith, take}

-- { "a b" }
abbrev spaced : List Token
spaced =
    plain b'{'
    ∷ blank newline
    ∷ text (raw b'a' ∷ raw b' ' ∷ raw b'b' ∷ [])
    ∷ blank b' '
    ∷ plain b'}'
    ∷ []

spaced-AreTokens : AreTokens spaced
spaced-AreTokens = (
  refl,
  refl,
  (
    refl,
    refl,
    (
      (refl, refl, refl, (refl, refl, refl, (refl, refl, refl, tt))),
      (refl, refl, (refl, refl, tt)),
    ),
  ),
)

compact_json-print_example :
    let (buf, out) = compact_json (print spaced) 9 in
    (take out buf ≡ print (strip spaced)) × (find_newline (take out buf) ≡ none) × (out ≤ 9)
compact_json-print_example =
    compact_json-print spaced (print spaced) 9 spaced-AreTokens (omega arith) refl

seven_left : (compact_json (print spaced) 9).1 ≡ 7
unfolding compact_json keeps next
seven_left = refl
