-- ===== src/Framing/Send/Peer.antt =====
-- What the peer of a socket was sent, as the history tells it.
use pjsocky.Pjlib.{Pjlib, Request, History, send}
use pjsocky.Prelude.{
  ℕ, ◌≡◌, List, [], ◌∷◌, ◌++◌, append_assoc, append-nil, arith, ◌==◌, if◌then◌else◌, take, ok, err,
}

-- The bytes that a request puts on a socket: what send() says it took.
unfoldable pub accepted : Pjlib → ℕ → Request → History → List ℕ
accepted p sock (send s bs) h =
    if s == sock then elim (p.send h) [ ok n ↦ take n bs | err e ↦ [] ] else []
accepted p sock _ h = []

-- All bytes that the peer of a socket was sent.
unfoldable pub wire : Pjlib → ℕ → History → List ℕ
unfolding accepted
wire p sock [] = []
wire p sock (q ∷ h) = wire p sock h ++ accepted p sock q (q ∷ h)

-- Between two histories the peer of `sock` was sent `bs`, and no other peer anything.
abbrev pub Adds : Pjlib → ℕ → List ℕ → History → History → Type 0
Adds p sock bs h k =
    (other : ℕ) → wire p other k ≡ (if sock == other then wire p other h ++ bs else wire p other h)

module _ (p : Pjlib) (sock : ℕ) where
  pub Adds-nil : (h : History) → Adds p sock [] h h
  Adds-nil h other = ground (arith, append-nil (wire p other h))

  pub Adds-append :
      (xs ys : List ℕ) (h k l : History)
      → Adds p sock xs h k
      → Adds p sock ys k l
      → Adds p sock (xs ++ ys) h l
  Adds-append xs ys h k l a b other =
      ground (arith, a other, b other, append_assoc (wire p other h) xs ys)
