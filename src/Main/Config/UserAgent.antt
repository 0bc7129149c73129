-- ===== src/Main/Config/UserAgent.antt =====
-- The User-Agent that main() sets.
use pjsocky.Main.Config.{ua_size, ua_text, ua_kept, replace_slashes, user_agent}
use pjsocky.Prelude.{
  ℕ, zero, suc, ◌+◌, ◌-◌, ◌<◌, ◌≡◌, refl, ap, ◌⊎◌, false, List, [], ◌∷◌, arith, ◌==◌, length, take,
  drop, length-take,
}

abbrev pub HasNoSlash : List ℕ → Type 0
HasNoSlash [] = Unit {0}
HasNoSlash (c ∷ s) = ((c == b'/') ≡ false) × HasNoSlash s

-- The same bytes, but for slashes that have become spaces.
abbrev pub Replaced : List ℕ → List ℕ → Type 0
Replaced [] [] = Unit {0}
Replaced (c ∷ s) (d ∷ t) = (c ≡ d ⊎ (c ≡ b'/') × (d ≡ b' ')) × Replaced s t
Replaced _ _ = ⊥

replace_slashes-HasNoSlash : (i : ℕ) (s : List ℕ) → ua_kept < i → HasNoSlash (replace_slashes i s)
replace_slashes-HasNoSlash i [] h = tt
replace_slashes-HasNoSlash i (c ∷ s) h =
    (ground arith, replace_slashes-HasNoSlash (suc i) s (omega (arith, h)))

replace_slashes-keeps :
    (i k : ℕ) (s : List ℕ)
    → i + k ≡ suc ua_kept
    → (take k (replace_slashes i s) ≡ take k s) × HasNoSlash (drop k (replace_slashes i s))
replace_slashes-keeps i zero s h = (refl, replace_slashes-HasNoSlash i s (omega (arith, h)))
replace_slashes-keeps i (suc k) [] h = (refl, tt)
replace_slashes-keeps i (suc k) (c ∷ s) h =
    let (same, clean) = replace_slashes-keeps (suc i) k s (omega (arith, h)) in
    (ground arith, clean)

replace_slashes-Replaced : (i : ℕ) (s : List ℕ) → Replaced s (replace_slashes i s)
replace_slashes-Replaced i [] = tt
replace_slashes-Replaced i (c ∷ s) = (ground arith, replace_slashes-Replaced (suc i) s)

length-replace_slashes : (i : ℕ) (s : List ℕ) → length (replace_slashes i s) ≡ length s
length-replace_slashes i [] = refl
length-replace_slashes i (c ∷ s) = ap suc (length-replace_slashes (suc i) s)

-- The User-Agent fits its buffer with the terminator, and is the format's text, cut off where it does not
-- fit, with its first eleven bytes as they are and no slash behind them; each byte is that of
-- the text, or a space for a slash.
pub user_agent_lem :
    (version pj_version sys_info : List ℕ)
    → let text = take (ua_size - 1) (ua_text version pj_version sys_info) in
      let ua = user_agent version pj_version sys_info in
      (length ua < ua_size)
      × (take 11 ua ≡ take 11 text)
      × HasNoSlash (drop 11 ua)
      × Replaced text ua
unfolding user_agent
user_agent_lem version pj_version sys_info =
    let text = take (ua_size - 1) (ua_text version pj_version sys_info) in
    let (same, clean) = replace_slashes-keeps 0 11 text refl in
    (
      omega (
        arith,
        length-replace_slashes 0 text,
        length-take (ua_size - 1) (ua_text version pj_version sys_info),
      ),
      same,
      clean,
      replace_slashes-Replaced 0 text,
    )
