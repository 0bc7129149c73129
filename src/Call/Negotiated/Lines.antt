-- ===== src/Call/Negotiated/Lines.antt =====
-- The lines that a negotiation leaves in the log.
use pjsocky.Call.Info.{is_active}
use pjsocky.Call.Negotiated.{
  type_str, media_status_str, dir_str, plain_line, stream_line, known_line, log_media,
  log_negotiated_media,
}
use pjsocky.World.Same.{SameState, SameState-trans}
use pjsocky.Pjlib.{
  Pjlib, Request, History, Media, CallInfo, StreamInfo, MediaLine, plain, streaming, negotiated,
  call_get_stream_info, media_line,
}
use pjsocky.World.{World}
use pjsocky.Prelude.{
  String, str_eq, eq_iff, ℕ, suc, ◌≡◌, refl, sym, ap, ◌∙◌, inl, inr, Bool, true, false, ◌&&◌, List,
  [], ◌∷◌, ◌++◌, append_assoc, append-nil, arith, ◌==◌, Bool-cases, ℤ, length, Result, ok, err,
}

abbrev line_of : Request → List MediaLine
line_of (media_line id l) = l ∷ []
line_of _ = []

-- The lines of a history, oldest first.
abbrev pub lines : History → List MediaLine
lines [] = []
lines (q ∷ h) = lines h ++ line_of q

-- What a line says of the m-line at an index: a stream only where the m-line is active.
abbrev pub describes : ℕ → Media → MediaLine → Bool
describes i m (plain j type status dir) =
    (i == j)
    && (str_eq type (type_str m.type)
        && (str_eq status (media_status_str m.status) && str_eq dir (dir_str m.dir)))
describes i m (streaming j type dir encoding_name tx_pt rx_pt) =
    (i == j) && (is_active m.status && str_eq dir (dir_str m.dir))
describes i m (negotiated media_cnt rem_aud_cnt rem_vid_cnt) = false

-- One line for each m-line, in order, from an index on.
abbrev pub describe_all : ℕ → List Media → List MediaLine → Bool
describe_all i [] [] = true
describe_all i (m ∷ ms) (l ∷ ls) = describes i m l && describe_all (suc i) ms ls
describe_all i _ _ = false

str_eq_refl : (s : String) → str_eq s s ≡ true
str_eq_refl s = (eq_iff s s).1 refl

plain_line-describes : (i : ℕ) (m : Media) → describes i m (plain_line i m) ≡ true
unfolding plain_line
plain_line-describes i m = ground (
  arith,
  str_eq_refl (type_str m.type),
  str_eq_refl (media_status_str m.status),
  str_eq_refl (dir_str m.dir),
)

module _ (p : Pjlib) (id : ℤ) where
  known_line-describes :
      (i : ℕ) (m : Media) (r : Result StreamInfo)
      → is_active m.status ≡ true
      → describes i m (known_line p i m r) ≡ true
  unfolding known_line stream_line
  known_line-describes i m (err e) on = plain_line-describes i m
  known_line-describes i m (ok si) on = ground (arith, str_eq_refl (dir_str m.dir))

  -- The state after the lines of a list of m-lines.
  abbrev pub Logs : (i : ℕ) (ms : List Media) → World → World → Type 0
  Logs i ms w v =
      SameState w v
      × (ls : List MediaLine) × (lines v.history ≡ lines w.history ++ ls)
      × (describe_all i ms ls ≡ true)

  cons-Logs :
      (i : ℕ) (m : Media) (ms : List Media) (l : MediaLine) (u v w : World)
      → SameState u v
      → lines v.history ≡ lines u.history ++ l ∷ []
      → describes i m l ≡ true
      → Logs (suc i) ms v w
      → Logs i (m ∷ ms) u w
  cons-Logs i m ms l u v w same gained tells (later, ls, rest, all) = (
    SameState-trans u v w same later,
    l ∷ ls,
    rest ∙ ap (λ x. x ++ ls) gained ∙ append_assoc (lines u.history) (l ∷ []) ls,
    rw (tells, all) refl,
  )

  log_media-Logs : (i : ℕ) (ms : List Media) (w : World) → Logs i ms w (log_media p id i ms w)
  unfolding log_media
  log_media-Logs i [] w = (refl, [], sym (append-nil (lines w.history)), refl)
  log_media-Logs i (m ∷ ms) w =
      let h = call_get_stream_info id i ∷ w.history in
      let l = known_line p i m (p.call_get_stream_info h) in
      let on = record w { history = media_line id l ∷ h } in
      let off = record w { history = media_line id (plain_line i m) ∷ w.history } in
      elim (Bool-cases (is_active m.status)) [
        | inl e ↦
            rw (e, log_media)
              (cons-Logs i m ms l w on _ refl (ap (λ x. x ++ l ∷ []) (append-nil (lines w.history)))
                (known_line-describes i m (p.call_get_stream_info h) e)
                (log_media-Logs (suc i) ms on))
        | inr e ↦
            rw (e, log_media)
              (cons-Logs i m ms (plain_line i m) w off _ refl refl (plain_line-describes i m)
                (log_media-Logs (suc i) ms off))
      ]

  -- log_negotiated_media changes nothing but the history. The log gains one line for each m-line of the
  -- call, in their order and with their indices, that names its direction, and its status or, only where
  -- it is active, a codec; then one line with the number of the m-lines and of the streams that the
  -- remote offered.
  pub log_negotiated_media-Logs :
      (info : CallInfo) (w : World)
      → let v = log_negotiated_media p id info w in
        let last = negotiated (length info.media) info.rem_aud_cnt info.rem_vid_cnt in
        SameState w v
        × (ls : List MediaLine) × (lines v.history ≡ lines w.history ++ (ls ++ last ∷ []))
        × (describe_all 0 info.media ls ≡ true)
  unfolding log_negotiated_media
  log_negotiated_media-Logs info w =
      let last = negotiated (length info.media) info.rem_aud_cnt info.rem_vid_cnt in
      let u = log_media p id 0 info.media w in
      let (same, ls, gained, all) = log_media-Logs 0 info.media w in
      (
        SameState-trans w u _ same refl,
        ls,
        ap (λ x. x ++ last ∷ []) gained ∙ append_assoc (lines w.history) ls (last ∷ []),
        all,
      )
