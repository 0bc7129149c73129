-- ===== src/Nameservers/Tokens.antt =====
-- Which name servers configure_nameservers finds.
use pjsocky.Nameservers.{
  limit, buf_size, is_env_delim, skip, word, strtok, add_tokens, configure_nameservers,
}
use pjsocky.Prelude.{
  ℕ, zero, suc, ◌<◌, ◌≡◌, refl, ap, ◌∙◌, Bool, true, false, Option, none, some, List, [], ◌∷◌, ◌++◌,
  arith, length, take, take-all, take-nil,
}

abbrev pub AllAre : (ℕ → Bool) → Bool → List ℕ → Type 0
AllAre is_delim b [] = Unit {0}
AllAre is_delim b (c ∷ s) = (is_delim c ≡ b) × AllAre is_delim b s

-- A further entry of the list: its separators, of which there is at least one, and its name.
pub record Entry : Type 0 where
  pub first : ℕ
  pub others : List ℕ
  pub initial : ℕ
  pub name : List ℕ

module _ (is_delim : ℕ → Bool) where
  abbrev pub IsEntry : Entry → Type 0
  IsEntry e =
      (is_delim e.first ≡ true)
      × AllAre is_delim true e.others
      × (is_delim e.initial ≡ false)
      × AllAre is_delim false e.name

  abbrev pub AreEntries : List Entry → Type 0
  AreEntries [] = Unit {0}
  AreEntries (e ∷ es) = IsEntry e × AreEntries es

  skip-append : (s t : List ℕ) → AllAre is_delim true s → skip is_delim (s ++ t) ≡ skip is_delim t
  skip-append [] t all = refl
  skip-append (c ∷ s) t (h, all) = rw (h, skip-append s t all)

  word-end : (n : List ℕ) → AllAre is_delim false n → word is_delim (n ++ []) ≡ (n, [])
  word-end [] all = refl
  word-end (c ∷ n) (h, all) = rw (h, word-end n all)

  word-append :
      (n : List ℕ) (d : ℕ) (t : List ℕ)
      → AllAre is_delim false n
      → is_delim d ≡ true
      → word is_delim (n ++ d ∷ t) ≡ (n, t)
  word-append [] d t all h = rw h
  word-append (c ∷ n) d t (g, all) h = rw (g, word-append n d t all h)

  skip-all : (s : List ℕ) → AllAre is_delim true s → skip is_delim s ≡ []
  skip-all [] all = refl
  skip-all (c ∷ s) (h, all) = rw (h, skip-all s all)

  skip-lead :
      (lead : List ℕ) (c : ℕ) (t : List ℕ)
      → AllAre is_delim true lead
      → is_delim c ≡ false
      → skip is_delim (lead ++ c ∷ t) ≡ c ∷ t
  skip-lead lead c t all h = rw (skip-append lead (c ∷ t) all, h)

  pub strtok-none : (s : List ℕ) → AllAre is_delim true s → strtok is_delim s ≡ none
  strtok-none s all = rw (skip-all s all)

  strtok-end :
      (lead : List ℕ) (c : ℕ) (n : List ℕ)
      → AllAre is_delim true lead
      → is_delim c ≡ false
      → AllAre is_delim false n
      → strtok is_delim (lead ++ c ∷ (n ++ [])) ≡ some (c ∷ n, [])
  strtok-end lead c n all h name = rw (skip-lead lead c (n ++ []) all h, h, word-end n name)

  pub strtok-append :
      (lead : List ℕ) (c : ℕ) (n : List ℕ) (d : ℕ) (t : List ℕ)
      → AllAre is_delim true lead
      → is_delim c ≡ false
      → AllAre is_delim false n
      → is_delim d ≡ true
      → strtok is_delim (lead ++ c ∷ (n ++ d ∷ t)) ≡ some (c ∷ n, t)
  strtok-append lead c n d t all h name g =
      rw (skip-lead lead c (n ++ d ∷ t) all h, h, word-append n d t name g)

-- The text of a list of entries, with separators `trail` after the last.
abbrev pub print : List Entry → List ℕ → List ℕ
print [] trail = trail
print (e ∷ es) trail = e.first ∷ (e.others ++ e.initial ∷ (e.name ++ print es trail))

abbrev pub names : List Entry → List (List ℕ)
names [] = []
names (e ∷ es) = (e.initial ∷ e.name) ∷ names es

module _ (is_delim : ℕ → Bool) where
  -- What the loop does with the answer of strtok_r.
  abbrev after : ℕ → Option (List ℕ × List ℕ) → List (List ℕ)
  after room o = elim o [ none ↦ [] | some t ↦ t.0 ∷ add_tokens is_delim room t.1 ]

  add_tokens-none :
      (room : ℕ) (s : List ℕ) → AllAre is_delim true s → add_tokens is_delim room s ≡ []
  add_tokens-none zero s all = refl
  add_tokens-none (suc room) s all = ap (after room) (strtok-none is_delim s all)

  add_tokens-print :
      (room : ℕ) (lead : List ℕ) (c : ℕ) (n : List ℕ) (es : List Entry) (trail : List ℕ)
      → AllAre is_delim true lead
      → is_delim c ≡ false
      → AllAre is_delim false n
      → AreEntries is_delim es
      → AllAre is_delim true trail
      → add_tokens is_delim room (lead ++ c ∷ (n ++ print es trail))
        ≡ take room ((c ∷ n) ∷ names es)
  add_tokens-print zero lead c n es trail l h name entries t = refl
  add_tokens-print (suc room) lead c n [] [] l h name entries t =
      ap (after room) (strtok-end is_delim lead c n l h name)
      ∙ rw (add_tokens-none room [] tt, take-nil room)
  add_tokens-print (suc room) lead c n [] (d ∷ trail) l h name entries (g, t) =
      ap (after room) (strtok-append is_delim lead c n d trail l h name g)
      ∙ rw (add_tokens-none room trail t, take-nil room)
  add_tokens-print (suc room) lead c n (e ∷ es) trail l h name ((g, o, i, m), entries) t =
      let rest = e.others ++ e.initial ∷ (e.name ++ print es trail) in
      ap (after room) (strtok-append is_delim lead c n e.first rest l h name g)
      ∙ ap (◌∷◌ (c ∷ n)) (add_tokens-print room e.others e.initial e.name es trail o i m entries t)

-- PJSOCKY_NAMESERVER, at most 511 bytes of names with one or more spaces and commas between them and
-- any around them, gives the first four of the names in their order; the file is then not read.
pub configure_nameservers-print :
    (lead : List ℕ) (c : ℕ) (n : List ℕ) (es : List Entry) (trail : List ℕ)
    (file : Option (List (List ℕ)))
    → AllAre is_env_delim true lead
    → is_env_delim c ≡ false
    → AllAre is_env_delim false n
    → AreEntries is_env_delim es
    → AllAre is_env_delim true trail
    → length (lead ++ c ∷ (n ++ print es trail)) < buf_size
    → configure_nameservers (some (lead ++ c ∷ (n ++ print es trail))) file
      ≡ take limit ((c ∷ n) ∷ names es)
unfolding configure_nameservers
configure_nameservers-print [] c n es trail file l h name entries t fits =
    ap (add_tokens is_env_delim limit)
      (take-all 511 (c ∷ (n ++ print es trail)) (omega (arith, fits)))
    ∙ add_tokens-print is_env_delim limit [] c n es trail l h name entries t
configure_nameservers-print (d ∷ lead) c n es trail file l h name entries t fits =
    ap (add_tokens is_env_delim limit)
      (take-all 511 (d ∷ (lead ++ c ∷ (n ++ print es trail))) (omega (arith, fits)))
    ∙ add_tokens-print is_env_delim limit (d ∷ lead) c n es trail l h name entries t
