-- ===== src/Nameservers.antt =====
-- configure_nameservers of src/main.c: the name servers from the environment, or else from
-- /etc/resolv.conf. Text is a list of bytes without a NUL; the lines of the file are what fgets() yields
-- for it. What is logged about the outcome is left out.
pub mod File
pub mod Tokens
mod Tests
use pjsocky.Prelude.{
  ℕ, zero, suc, ◌-◌, Bool, true, false, ◌&&◌, ◌||◌, Option, none, some, List, [], ◌∷◌, ◌==◌,
  if◌then◌else◌, take,
}

-- PJ_ARRAY_SIZE(ua_cfg->nameserver)
abbrev pub limit : ℕ
limit = 4

-- sizeof(buf)
abbrev pub buf_size : ℕ
buf_size = 512

-- The delimiters " ," and " \t\r\n".
abbrev pub is_env_delim : ℕ → Bool
is_env_delim c = c == b' ' || c == b','

abbrev pub is_file_delim : ℕ → Bool
is_file_delim c = c == b' ' || (c == b'\t' || (c == b'\r' || c == b'\n'))

module _ (is_delim : ℕ → Bool) where
  abbrev pub skip : List ℕ → List ℕ
  skip [] = []
  skip (c ∷ s) = let rest = skip s in if is_delim c then rest else c ∷ s

  -- The bytes up to a delimiter, and what follows the delimiter.
  abbrev pub word : List ℕ → List ℕ × List ℕ
  word [] = ([], [])
  word (c ∷ s) = let p = word s in if is_delim c then ([], s) else (c ∷ p.0, p.1)

  -- strtok_r: the next token and what `save` then points to.
  abbrev pub token_of : List ℕ × List ℕ → Option (List ℕ × List ℕ)
  token_of ([], rest) = none
  token_of (c ∷ tok, rest) = some (c ∷ tok, rest)

  abbrev pub strtok : List ℕ → Option (List ℕ × List ℕ)
  strtok save = token_of (word (skip save))

  -- The loop over the tokens, with room for so many more.
  abbrev pub add_tokens : (room : ℕ) → List ℕ → List (List ℕ)
  add_tokens zero save = []
  add_tokens (suc room) save = elim (strtok save) [ none ↦ [] | some t ↦ t.0 ∷ add_tokens room t.1 ]

abbrev pub bytes_eq : List ℕ → List ℕ → Bool
bytes_eq [] [] = true
bytes_eq (a ∷ s) (b ∷ t) = a == b && bytes_eq s t
bytes_eq _ _ = false

abbrev pub keyword : List ℕ
keyword = b'n' ∷ b'a' ∷ b'm' ∷ b'e' ∷ b's' ∷ b'e' ∷ b'r' ∷ b'v' ∷ b'e' ∷ b'r' ∷ []

-- The second token of a line, if the first is the keyword: the server that it names.
abbrev pub server_after : List ℕ × List ℕ → Option (List ℕ)
server_after (tok, save) =
    if bytes_eq tok keyword
    then elim (strtok is_file_delim save) [ none ↦ none | some t ↦ some t.0 ]
    else none

abbrev pub server_of : List ℕ → Option (List ℕ)
server_of line = elim (strtok is_file_delim line) [ none ↦ none | some t ↦ server_after t ]

-- The loop over the lines, with room for so many more.
abbrev pub add_lines : List (List ℕ) → (room : ℕ) → List (List ℕ)
add_lines [] room = []
add_lines (line ∷ lines) zero = []
add_lines (line ∷ lines) (suc room) = elim (server_of line) [
  | none ↦ add_lines lines (suc room)
  | some server ↦ server ∷ add_lines lines room
]

abbrev pub from_file : Option (List (List ℕ)) → List (List ℕ)
from_file none = []
from_file (some lines) = add_lines lines limit

-- `file` is none where it cannot be opened.
unfoldable pub configure_nameservers :
    (env : Option (List ℕ)) (file : Option (List (List ℕ))) → List (List ℕ)
configure_nameservers none file = from_file file
configure_nameservers (some []) file = from_file file
configure_nameservers (some (c ∷ s)) file =
    add_tokens is_env_delim limit (take (buf_size - 1) (c ∷ s))
