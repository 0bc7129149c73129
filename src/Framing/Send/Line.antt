-- ===== src/Framing/Send/Line.antt =====
-- A JSON value is written as one line.
use pjsocky.Framing.Buffer.{newline, find_newline}
use pjsocky.Framing.Compact.Tokens.{Token, AreTokens, print, compact_json-print}
use pjsocky.Framing.Send.{compacted, write_json}
use pjsocky.Framing.Send.Peer.{accepted}
use pjsocky.Framing.Send.Wire.{nothing_Delivers, Delivers, after_silence, write_line-Delivers}
use pjsocky.Json.{Value}
use pjsocky.Pjlib.{Pjlib, History, json_write}
use pjsocky.World.{World, Connection}
use pjsocky.Prelude.{
  ℕ, ◌≡◌, refl, ◌∙◌, inl, inr, false, none, List, [], ◌∷◌, ◌++◌, arith, length, take-all, Status,
  is_success, Result-cases, ok,
}

-- What the program relies on in pj_json_write(): its text is made of tokens and blanks between them,
-- and control characters inside of strings are escaped.
abbrev pub JsonPrints : Pjlib → Type 0
JsonPrints p =
    (h : History) (text : List ℕ)
    → p.json_write h ≡ ok text
    → (ts : List Token) × AreTokens ts × (text ≡ print ts)

-- A call that writes one line: its bytes hold no newline but the one that ends it.
abbrev pub WritesLine : Pjlib → Connection → World → Status × World → Type 0
WritesLine p c w r =
    (line : List ℕ) × (find_newline line ≡ none)
    × Delivers p c.sock (line ++ newline ∷ []) w r.1 (is_success r.0)

compacted-line :
    (text : List ℕ) (ts : List Token)
    → AreTokens ts
    → text ≡ print ts
    → find_newline (compacted text) ≡ none
unfolding compacted
compacted-line text ts h e =
    (compact_json-print ts text (length text) h (omega arith)
      (take-all (length text) text (omega arith) ∙ e)).1

-- A JSON value that is written to a connection is one line: what its peer is sent is a text without
-- a newline and a newline behind it, or a prefix of that if the write does not succeed; no other
-- socket is sent anything, and nothing but the history changes. The condition is on what the JSON
-- printer prints.
pub write_json-WritesLine :
    (p : Pjlib) (c : Connection) (elem : Value) (size : ℕ) (w : World)
    → JsonPrints p
    → WritesLine p c w (write_json p c elem size w)
unfolding write_json accepted
write_json-WritesLine p c elem size w prints =
    let h = json_write elem size ∷ w.history in
    let v = record w { history = h } in
    elim (Result-cases (p.json_write h)) [
      | inl (text, e) ↦
          let (ts, good, shown) = prints h text e in
          rw (e, write_json)
            (
              compacted text,
              compacted-line text ts good shown,
              after_silence p c.sock (json_write elem size) _ w _ _ (λ other. refl)
                  (write_line-Delivers p c (compacted text) v),
            )
      | inr (x, e) ↦
          rw (e, write_json)
            (
              [],
              unfold find_newline in refl,
              after_silence p c.sock (json_write elem size) (newline ∷ []) w v false (λ other. refl)
                  (nothing_Delivers p c.sock (newline ∷ []) v),
            )
    ]
