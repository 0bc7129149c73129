-- ===== src/Framing/Buffer/Split.antt =====
-- The reading of a byte stream as lines, with no buffer: what framing.c is measured against.
use pjsocky.Framing.Buffer.{newline, find_newline}
use pjsocky.Prelude.{
  ℕ, zero, suc, ◌≡◌, refl, none, some, List, [], ◌∷◌, ◌++◌, ◌==◌, arith, if◌then◌else◌, take, drop,
}

-- The complete lines, and the bytes behind the last newline.
pub record Lines : Type 0 where
  pub full : List (List ℕ)
  pub rest : List ℕ

abbrev prepend : ℕ → List (List ℕ) → List ℕ → Lines
prepend b [] rest = record { full = []; rest = b ∷ rest }
prepend b (l ∷ ls) rest = record { full = (b ∷ l) ∷ ls; rest = rest }

pub split : List ℕ → Lines
split [] = record { full = []; rest = [] }
split (b ∷ bs) =
    let s = split bs in
    if b == newline then record { full = [] ∷ s.full; rest = s.rest } else prepend b s.full s.rest

pub split-nil : split [] ≡ record { full = []; rest = [] }
unfolding split
split-nil = refl

pub split-none : (bs : List ℕ) → find_newline bs ≡ none → split bs ≡ record { full = []; rest = bs }
unfolding split find_newline
split-none [] h = refl
split-none (b ∷ bs) h = ground (arith, split-none bs)

-- With a newline at `n`, the first `n` bytes are a line and the rest is read on its own.
pub split-some :
    (bs : List ℕ) (n : ℕ)
    → find_newline bs ≡ some n
    → split bs ≡ record {
      full = take n bs ∷ (split (drop (suc n) bs)).full;
      rest = (split (drop (suc n) bs)).rest;
    }
unfolding split find_newline
split-some [] n h = cc
split-some (b ∷ bs) zero h = ground arith
split-some (b ∷ bs) (suc n) h = ground (arith, split-some bs n)

-- Reading more bytes later gives the same lines as reading them at once.
pub split-append :
    (xs ys : List ℕ)
    → split (xs ++ ys) ≡ record {
      full = (split xs).full ++ (split ((split xs).rest ++ ys)).full;
      rest = (split ((split xs).rest ++ ys)).rest;
    }
unfolding split
split-append [] ys = refl
split-append (x ∷ xs) ys = ground (arith, split-append xs ys)
