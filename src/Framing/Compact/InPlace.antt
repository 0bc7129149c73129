-- ===== src/Framing/Compact/InPlace.antt =====
-- The pass in place is the plain filter over the text: the write position never passes the read
-- position, so no byte is overwritten before it is read.
use pjsocky.Framing.Compact.{Mode, outside, next, keeps, loop, compact_json}
use pjsocky.Prelude.{
  ℕ, zero, suc, ◌+◌, ◌≤◌, ◌<◌, ◌≡◌, refl, sym, ap, ◌∙◌, inl, inr, true, false, List, [], ◌∷◌, ◌++◌,
  append_assoc, append-nil, arith, if◌then◌else◌, Bool-cases, length, set, get_or, take, drop,
  length-set, drop-set_lt,
}

-- The same shortening as a function on texts.
unfoldable pub compact : Mode → List ℕ → List ℕ
compact m [] = []
compact m (c ∷ cs) = let rest = compact (next m c) cs in if keeps m c then c ∷ rest else rest

drop-get_or :
    (buf : List ℕ) (i : ℕ) → i < length buf → drop i buf ≡ get_or buf i 0 ∷ drop (suc i) buf
drop-get_or [] i h = elim h [ ]
drop-get_or (b ∷ buf) zero h = refl
drop-get_or (b ∷ buf) (suc i) h = drop-get_or buf i (omega arith)

take-set_self :
    (buf : List ℕ) (i v : ℕ) → i < length buf → take (suc i) (set buf i v) ≡ take i buf ++ v ∷ []
take-set_self [] i v h = elim h [ ]
take-set_self (b ∷ buf) zero v h = refl
take-set_self (b ∷ buf) (suc i) v h = ap (◌∷◌ b) (take-set_self buf i v (omega arith))

compact-kept :
    (m : Mode) (c : ℕ) (cs : List ℕ)
    → keeps m c ≡ true
    → compact m (c ∷ cs) ≡ c ∷ compact (next m c) cs
unfolding compact
compact-kept m c cs e = rw e

compact-dropped :
    (m : Mode) (c : ℕ) (cs : List ℕ)
    → keeps m c ≡ false
    → compact m (c ∷ cs) ≡ compact (next m c) cs
unfolding compact
compact-dropped m c cs e = rw e

module _ (left : ℕ) (buf : List ℕ) (i out : ℕ) (m : Mode) where
  loop-kept :
      keeps m (get_or buf i 0) ≡ true
      → loop (suc left) buf i out m
        ≡ loop left (set buf out (get_or buf i 0)) (suc i) (suc out) (next m (get_or buf i 0))
  unfolding loop
  loop-kept e = rw e

  loop-dropped :
      keeps m (get_or buf i 0) ≡ false
      → loop (suc left) buf i out m ≡ loop left buf (suc i) out (next m (get_or buf i 0))
  unfolding loop
  loop-dropped e = rw e

-- What the loop leaves in front of the write position `out`, at its end, from `i` on.
abbrev Leaves : (left : ℕ) (buf : List ℕ) (i out : ℕ) → Mode → List ℕ × ℕ → Type 0
Leaves left buf i out m r =
    (take r.1 r.0 ≡ take out buf ++ compact m (take left (drop i buf)))
    × (length r.0 ≡ length buf)
    × (r.1 ≤ out + left)

loop-Leaves :
    (left : ℕ) (buf : List ℕ) (i out : ℕ) (m : Mode)
    → out ≤ i
    → i + left ≤ length buf
    → Leaves left buf i out m (loop left buf i out m)
unfolding loop compact
loop-Leaves zero buf i out m h fits = (sym (append-nil _), refl, omega arith)
loop-Leaves (suc left) buf i out m h fits = elim (Bool-cases (keeps m (get_or buf i 0))) [
  | inl kept ↦
      let ih =
        loop-Leaves left (set buf out (get_or buf i 0)) (suc i) (suc out) (next m (get_or buf i 0))
          (omega arith) (omega (arith, length-set buf out (get_or buf i 0))) in
      rw (loop-kept left buf i out m kept, drop-get_or buf i (omega arith), compact-kept _ _ _ kept)
        (
          ih.0
              ∙ rw
                  (
                    take-set_self buf out (get_or buf i 0) (omega arith),
                    drop-set_lt (suc i) buf out (get_or buf i 0) (omega arith),
                  )
                  (append_assoc (take out buf) (get_or buf i 0 ∷ [])
                    (compact (next m (get_or buf i 0)) (take left (drop (suc i) buf)))),
          ih.1 ∙ length-set buf out (get_or buf i 0),
          omega (arith, ih.2),
        )
  | inr dropped ↦
      let ih =
        loop-Leaves left buf (suc i) out (next m (get_or buf i 0)) (omega arith) (omega arith) in
      rw
        (
          loop-dropped left buf i out m dropped,
          drop-get_or buf i (omega arith),
          compact-dropped _ _ _ dropped,
        )
        (ih.0, ih.1, omega (arith, ih.2))
]

-- compact_json's result is the filtered text, it fits in the space of the original, and the buffer
-- keeps its size.
pub compact_json-compact :
    (buf : List ℕ) (len : ℕ)
    → len ≤ length buf
    → (take (compact_json buf len).1 (compact_json buf len).0 ≡ compact outside (take len buf))
      × (length (compact_json buf len).0 ≡ length buf)
      × ((compact_json buf len).1 ≤ len)
unfolding compact_json
compact_json-compact buf len fits =
    let done = loop-Leaves len buf 0 0 outside (omega arith) (omega arith) in
    (done.0, done.1, omega (arith, done.2))
