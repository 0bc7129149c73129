-- ===== src/Nameservers/File.antt =====
-- Which name servers configure_nameservers finds in /etc/resolv.conf.
use pjsocky.Nameservers.{
  limit, is_file_delim, strtok, bytes_eq, keyword, server_after, server_of, add_lines,
  configure_nameservers,
}
use pjsocky.Nameservers.Tokens.{AllAre, strtok-none, strtok-append}
use pjsocky.Prelude.{
  ℕ, zero, suc, ◌≡◌, refl, sym, ap, ◌∙◌, true, false, Option, none, some, List, [], ◌∷◌, ◌++◌, map,
  take, drop, take-nil,
}

-- A line as fgets() yields it: blank; the keyword alone; the keyword, blanks and a server, which is
-- followed by a blank or the end of the line and then anything; or another first word.
pub data Line : Type 0 where
  blank : (s : List ℕ) → Line
  bare : (lead : List ℕ) (d : ℕ) (s : List ℕ) → Line
  server :
      (lead : List ℕ) (d : ℕ) (seps : List ℕ) (c : ℕ) (n : List ℕ) (e : ℕ) (rest : List ℕ) → Line
  other : (lead : List ℕ) (c : ℕ) (n : List ℕ) (d : ℕ) (rest : List ℕ) → Line

abbrev pub IsLine : Line → Type 0
IsLine (blank s) = AllAre is_file_delim true s
IsLine (bare lead d s) =
    AllAre is_file_delim true lead × (is_file_delim d ≡ true) × AllAre is_file_delim true s
IsLine (server lead d seps c n e rest) =
    AllAre is_file_delim true lead
    × (is_file_delim d ≡ true)
    × AllAre is_file_delim true seps
    × (is_file_delim c ≡ false)
    × AllAre is_file_delim false n
    × (is_file_delim e ≡ true)
IsLine (other lead c n d rest) =
    AllAre is_file_delim true lead
    × (is_file_delim c ≡ false)
    × AllAre is_file_delim false n
    × (is_file_delim d ≡ true)
    × (bytes_eq (c ∷ n) keyword ≡ false)

abbrev pub AreLines : List Line → Type 0
AreLines [] = Unit {0}
AreLines (l ∷ ls) = IsLine l × AreLines ls

abbrev pub text : Line → List ℕ
text (blank s) = s
text (bare lead d s) = lead ++ (keyword ++ d ∷ s)
text (server lead d seps c n e rest) = lead ++ (keyword ++ d ∷ (seps ++ c ∷ (n ++ e ∷ rest)))
text (other lead c n d rest) = lead ++ c ∷ (n ++ d ∷ rest)

abbrev pub named : Line → Option (List ℕ)
named (server lead d seps c n e rest) = some (c ∷ n)
named _ = none

abbrev pub servers : List Line → List (List ℕ)
servers [] = []
servers (server lead d seps c n e rest ∷ ls) = (c ∷ n) ∷ servers ls
servers (_ ∷ ls) = servers ls

-- What server_of does with the first answer of strtok_r, and server_after with the second.
abbrev first_answer : Option (List ℕ × List ℕ) → Option (List ℕ)
first_answer o = elim o [ none ↦ none | some t ↦ server_after t ]

abbrev second_answer : Option (List ℕ × List ℕ) → Option (List ℕ)
second_answer o = elim o [ none ↦ none | some t ↦ some t.0 ]

keyword-is_plain : AllAre is_file_delim false (drop 1 keyword)
keyword-is_plain = (refl, (refl, (refl, (refl, (refl, (refl, (refl, (refl, (refl, tt)))))))))

strtok-keyword :
    (lead : List ℕ) (d : ℕ) (rest : List ℕ)
    → AllAre is_file_delim true lead
    → is_file_delim d ≡ true
    → strtok is_file_delim (lead ++ (keyword ++ d ∷ rest)) ≡ some (keyword, rest)
strtok-keyword lead d rest all h =
    strtok-append is_file_delim lead b'n' (drop 1 keyword) d rest all refl keyword-is_plain h

server_of-text : (l : Line) → IsLine l → server_of (text l) ≡ named l
server_of-text (blank s) all = ap first_answer (strtok-none is_file_delim s all)
server_of-text (bare lead d s) (l, h, all) =
    ap first_answer (strtok-keyword lead d s l h)
    ∙ ap second_answer (strtok-none is_file_delim s all)
server_of-text (server lead d seps c n e rest) (l, h, all, g, name, f) =
    ap first_answer (strtok-keyword lead d (seps ++ c ∷ (n ++ e ∷ rest)) l h)
    ∙ ap second_answer (strtok-append is_file_delim seps c n e rest all g name f)
server_of-text (other lead c n d rest) (l, g, name, h, differs) =
    ap first_answer (strtok-append is_file_delim lead c n d rest l g name h) ∙ rw differs

abbrev line_answer : List (List ℕ) → ℕ → Option (List ℕ) → List (List ℕ)
line_answer lines room o = elim o [
  | none ↦ add_lines lines (suc room)
  | some found ↦ found ∷ add_lines lines room
]

add_lines-text :
    (ls : List Line) (room : ℕ)
    → AreLines ls
    → add_lines (map text ls) room ≡ take room (servers ls)
add_lines-text [] room h = sym (take-nil room)
add_lines-text (l ∷ ls) zero h = refl
add_lines-text (blank s ∷ ls) (suc room) (h, hs) =
    ap (line_answer (map text ls) room) (server_of-text (blank s) h)
    ∙ add_lines-text ls (suc room) hs
add_lines-text (bare lead d s ∷ ls) (suc room) (h, hs) =
    ap (line_answer (map text ls) room) (server_of-text (bare lead d s) h)
    ∙ add_lines-text ls (suc room) hs
add_lines-text (server lead d seps c n e rest ∷ ls) (suc room) (h, hs) =
    ap (line_answer (map text ls) room) (server_of-text (server lead d seps c n e rest) h)
    ∙ ap (◌∷◌ (c ∷ n)) (add_lines-text ls room hs)
add_lines-text (other lead c n d rest ∷ ls) (suc room) (h, hs) =
    ap (line_answer (map text ls) room) (server_of-text (other lead c n d rest) h)
    ∙ add_lines-text ls (suc room) hs

-- Without PJSOCKY_NAMESERVER, or with an empty one, the servers are the first four that the lines of
-- the file name: a line names one if its first word is the keyword and it has a second one, which is
-- the server, whatever follows it.
pub configure_nameservers-text :
    (ls : List Line)
    → AreLines ls
    → (configure_nameservers none (some (map text ls)) ≡ take limit (servers ls))
      × (configure_nameservers (some []) (some (map text ls)) ≡ take limit (servers ls))
unfolding configure_nameservers
configure_nameservers-text ls h = (add_lines-text ls limit h, add_lines-text ls limit h)
