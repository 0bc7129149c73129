-- ===== src/Framing/Compact/Tokens.antt =====
-- What pj_json_write() prints, as tokens: blanks between the tokens, bytes outside of strings, and
-- strings of raw and escaped characters. compact_json is measured against it.
use pjsocky.Framing.Buffer.{newline, find_newline}
use pjsocky.Framing.Compact.{Mode, outside, quote, backslash, is_blank, keeps, next, compact_json}
use pjsocky.Framing.Compact.InPlace.{compact, compact_json-compact}
use pjsocky.Prelude.{
  ℕ, ◌≤◌, ◌≡◌, refl, ap, ◌∙◌, true, false, none, List, [], ◌∷◌, arith, ◌==◌, length, take,
}

pub data Piece : Type 0 where
  raw escape : ℕ → Piece

pub data Token : Type 0 where
  blank plain : ℕ → Token
  text : List Piece → Token

abbrev pub print_pieces : List Piece → List ℕ → List ℕ
print_pieces [] after = quote ∷ after
print_pieces (raw c ∷ ps) after = c ∷ print_pieces ps after
print_pieces (escape c ∷ ps) after = backslash ∷ c ∷ print_pieces ps after

abbrev pub print : List Token → List ℕ
print [] = []
print (blank c ∷ ts) = c ∷ print ts
print (plain c ∷ ts) = c ∷ print ts
print (text ps ∷ ts) = quote ∷ print_pieces ps (print ts)

-- A raw character is neither a quote nor a backslash nor a newline, and no escape is a newline:
-- pj_json_write() escapes these.
abbrev pub ArePieces : List Piece → Type 0
ArePieces [] = Unit {0}
ArePieces (raw c ∷ ps) =
    ((c == quote) ≡ false) × ((c == backslash) ≡ false) × ((c == newline) ≡ false) × ArePieces ps
ArePieces (escape c ∷ ps) = ((c == newline) ≡ false) × ArePieces ps

abbrev pub AreTokens : List Token → Type 0
AreTokens [] = Unit {0}
AreTokens (blank c ∷ ts) = (is_blank c ≡ true) × ((c == quote) ≡ false) × AreTokens ts
AreTokens (plain c ∷ ts) = (is_blank c ≡ false) × ((c == quote) ≡ false) × AreTokens ts
AreTokens (text ps ∷ ts) = ArePieces ps × AreTokens ts

-- The tokens without the blanks; strings stay whole.
abbrev pub strip : List Token → List Token
strip [] = []
strip (blank c ∷ ts) = strip ts
strip (plain c ∷ ts) = plain c ∷ strip ts
strip (text ps ∷ ts) = text ps ∷ strip ts

abbrev inside : Mode
inside = record { in_string = true; escaped = false }

compact_pieces :
    (ps : List Piece) (after : List ℕ)
    → ArePieces ps
    → compact inside (print_pieces ps after) ≡ print_pieces ps (compact outside after)
unfolding compact keeps next
compact_pieces [] after h = refl
compact_pieces (raw c ∷ ps) after h = ground (arith, compact_pieces ps after h.3)
compact_pieces (escape c ∷ ps) after h = ap (λ t. backslash ∷ c ∷ t) (compact_pieces ps after h.1)

compact-print : (ts : List Token) → AreTokens ts → compact outside (print ts) ≡ print (strip ts)
unfolding compact keeps next
compact-print [] h = refl
compact-print (blank c ∷ ts) h = ground (arith, compact-print ts h.2)
compact-print (plain c ∷ ts) h = ground (arith, compact-print ts h.2)
compact-print (text ps ∷ ts) h =
    ap (◌∷◌ quote) (compact_pieces ps (print ts) h.0 ∙ ap (print_pieces ps) (compact-print ts h.1))

one_line_pieces :
    (ps : List Piece) (after : List ℕ)
    → ArePieces ps
    → find_newline after ≡ none
    → find_newline (print_pieces ps after) ≡ none
unfolding find_newline
one_line_pieces [] after h e = rw e
one_line_pieces (raw c ∷ ps) after h e = ground (arith, one_line_pieces ps after h.3 e)
one_line_pieces (escape c ∷ ps) after h e = ground (arith, one_line_pieces ps after h.1 e)

one_line_strip : (ts : List Token) → AreTokens ts → find_newline (print (strip ts)) ≡ none
unfolding find_newline
one_line_strip [] h = refl
one_line_strip (blank c ∷ ts) h = one_line_strip ts h.2
one_line_strip (plain c ∷ ts) h = ground (arith, one_line_strip ts h.2)
one_line_strip (text ps ∷ ts) h =
    ground (arith, one_line_pieces ps (print (strip ts)) h.0 (one_line_strip ts h.1))

-- Of a printed JSON text, compact_json leaves exactly the tokens without the blanks between them,
-- strings byte for byte, and the result holds no newline: it is one NDJSON line.
pub compact_json-print :
    (ts : List Token) (buf : List ℕ) (len : ℕ)
    → AreTokens ts
    → len ≤ length buf
    → take len buf ≡ print ts
    → let (buf', out) = compact_json buf len in
      (take out buf' ≡ print (strip ts)) × (find_newline (take out buf') ≡ none) × (out ≤ len)
compact_json-print ts buf len h fits e =
    let shown = compact_json-compact buf len fits in
    let text = shown.0 ∙ ap (compact outside) e ∙ compact-print ts h in
    (text, ap find_newline text ∙ one_line_strip ts h, shown.2)
