-- ===== src/Framing/Buffer/Step.antt =====
-- One read into the buffer and one line out of it, against the bytes that are waiting.
use pjsocky.Framing.Buffer.{
  max_line, Framing, overwrite, reclaim, Recv, received, would_block, failed, room, fill,
  append_received,
}
use pjsocky.Prelude.{
  ℕ, ◌+◌, ◌≤◌, ◌≡◌, refl, sym, ◌∙◌, inl, inr, List, [], ◌∷◌, ◌++◌, ◌==◌, arith, length, take, drop,
  length-append, length-take, length-drop, take-append_of_length, append-nil, Bool-cases,
}

-- The bytes that were received and not yet consumed.
abbrev pub waiting : Framing → List ℕ
waiting f = take f.len (drop f.start f.buf)

-- The buffer has its size, and the waiting bytes lie inside the first `max_line` of it.
pub record IsValid (f : Framing) : Type 0 where
  pub within : f.start + f.len ≤ max_line
  pub sized : length f.buf ≡ max_line + 1

overwrite_lem :
    (at : ℕ) (bs buf : List ℕ)
    → overwrite at bs buf ≡ take at buf ++ bs ++ drop (at + length bs) buf
unfolding overwrite
overwrite_lem at bs buf = refl

length-overwrite :
    (at : ℕ) (bs buf : List ℕ)
    → at + length bs ≤ length buf
    → length (overwrite at bs buf) ≡ length buf
length-overwrite at bs buf h = rw overwrite_lem (
    omega (
      arith,
      length-append (take at buf ++ bs) (drop (at + length bs) buf),
      length-append (take at buf) bs,
      length-take at buf,
      length-drop (at + length bs) buf,
    ))

-- What was written, with what stood before it.
take-overwrite :
    (at : ℕ) (bs buf : List ℕ)
    → at ≤ length buf
    → take (at + length bs) (overwrite at bs buf) ≡ take at buf ++ bs
take-overwrite at bs buf h = rw overwrite_lem (
    take-append_of_length (take at buf ++ bs) _
      (omega (arith, length-append (take at buf) bs, length-take at buf)))

pub length-waiting : (f : Framing) → IsValid f → length (waiting f) ≡ f.len
length-waiting f v =
    omega (arith, length-take f.len (drop f.start f.buf), length-drop f.start f.buf)

moved : (f : Framing) → IsValid f → take f.len (overwrite 0 (waiting f) f.buf) ≡ waiting f
unfolding overwrite
moved f v = take-append_of_length (waiting f) _ (sym (length-waiting f v))

-- Moving the waiting bytes to the front loses none of them.
reclaim-waiting : (f : Framing) → IsValid f → waiting (reclaim f) ≡ waiting f
unfolding reclaim
reclaim-waiting f v = ground (arith, moved f v)

pub reclaim-IsValid :
    (f : Framing)
    → IsValid f
    → IsValid (reclaim f) × ((reclaim f).start ≡ 0) × ((reclaim f).len ≡ f.len)
unfolding reclaim
reclaim-IsValid f v = ground (arith, length-waiting f v, length-overwrite 0 (waiting f) f.buf)

-- The bytes that a recv() delivers.
unfoldable pub delivered : Recv → List ℕ
delivered (received bs) = bs
delivered would_block = []
delivered (failed e) = []

-- The buffer keeps its invariant, and `bs` stand behind what was waiting.
abbrev pub Gains : Framing → List ℕ → Framing → Type 0
Gains f bs g = IsValid g × (g.start ≡ 0) × (waiting g ≡ waiting f ++ bs)

append_received-Gains :
    (f : Framing) (r : Recv)
    → IsValid f
    → f.start ≡ 0
    → f.len + length (delivered r) ≤ max_line
    → Gains f (delivered r) (append_received f r).0
unfolding append_received delivered
append_received-Gains f (received []) v at_front fits = (v, at_front, sym (append-nil _))
append_received-Gains f (received (b ∷ bs)) v at_front fits = (
  record { within = omega arith; sized = omega (arith, length-overwrite f.len (b ∷ bs) f.buf) },
  at_front,
  rw at_front (take-overwrite f.len (b ∷ bs) f.buf (omega arith)),
)
append_received-Gains f would_block v at_front fits = (v, at_front, sym (append-nil _))
append_received-Gains f (failed e) v at_front fits = (v, at_front, sym (append-nil _))

length-zero : (bs : List ℕ) → length bs ≤ 0 → bs ≡ []
length-zero [] h = refl
length-zero (b ∷ bs) h = absurd (omega arith)

-- A read keeps the buffer's invariant and adds exactly the bytes that recv() delivered behind those
-- that were waiting, wherever in the buffer they stood; recv() delivers at most the room asked for.
pub fill-Gains :
    (f : Framing) (r : Recv)
    → IsValid f
    → length (delivered r) ≤ room f
    → Gains f (delivered r) (fill f r).0
unfolding fill
fill-Gains f r v fits = elim (Bool-cases (room (reclaim f) == 0)) [
  | inl full ↦ rw full (
    (reclaim-IsValid f v).0,
    (reclaim-IsValid f v).1,
    rw (length-zero (delivered r) (ground (arith, reclaim-IsValid f v)))
        (reclaim-waiting f v ∙ sym (append-nil _)),
  )
  | inr free ↦ rw free (
      rw (← reclaim-waiting f v) (
        append_received-Gains (reclaim f) r (reclaim-IsValid f v).0 (reclaim-IsValid f v).1
          (omega (arith, reclaim-IsValid f v))))
]
