-- ===== src/Call/Info.antt =====
-- src/call.c: what is read off a call: its info, its offer, its RTP counters and its media.
pub mod Words
pub mod Said
use pjsocky.Call.{is_valid_call_id}
use pjsocky.Pjlib.{
  Pjlib, CallInfo, Media, MediaType, audio, video, other_media, MediaStatus, active, InvState,
  StreamStat, call_get_info, call_get_stream_stat, has_encoding, null, calling, incoming, early,
  connecting, confirmed, disconnected, unknown,
}
use pjsocky.World.{World, M, ◌>>=◌, pure, ask}
use pjsocky.Prelude.{
  String, ℕ, suc, ◌≡◌, refl, ap, ◌∙◌, inl, inr, Bool, true, false, ◌&&◌, ◌||◌, Option, none, some,
  List, [], ◌∷◌, arith, ltb, if◌then◌else◌, Option-cases, ℤ, Result, einval, enotfound, ok, err,
}

abbrev pub is_active : MediaStatus → Bool
is_active active = true
is_active _ = false

abbrev pub same_type : MediaType → MediaType → Bool
same_type audio audio = true
same_type video video = true
same_type other_media other_media = true
same_type _ _ = false

-- `state == INCOMING || state == EARLY`
abbrev pub is_ringing : InvState → Bool
is_ringing incoming = true
is_ringing early = true
is_ringing _ = false

abbrev pub is_confirmed : InvState → Bool
is_confirmed confirmed = true
is_confirmed _ = false

abbrev pub is_disconnected : InvState → Bool
is_disconnected disconnected = true
is_disconnected _ = false

-- pjsocky_call_state_str
unfoldable pub state_str : InvState → String
state_str null = "NULL"
state_str calling = "CALLING"
state_str incoming = "INCOMING"
state_str early = "EARLY"
state_str connecting = "CONNECTING"
state_str confirmed = "CONFIRMED"
state_str disconnected = "DISCONNECTED"
state_str unknown = "UNKNOWN"

-- The loop over info.media that finds an active stream of a type: has_audio and has_video.
unfoldable pub has_active : MediaType → List Media → Bool
has_active t [] = false
has_active t (m ∷ ms) = (is_active m.status && same_type m.type t) || has_active t ms

abbrev next_index : Option ℕ → Option ℕ
next_index none = none
next_index (some i) = some (suc i)

-- The index of the first active stream of a type.
unfoldable pub active_index : MediaType → List Media → Option ℕ
active_index t [] = none
active_index t (m ∷ ms) =
    if same_type m.type t && is_active m.status then some 0 else next_index (active_index t ms)

-- The index of the first active video stream that is to send.
unfoldable pub find_sending_video : List Media → Option ℕ
find_sending_video [] = none
find_sending_video (m ∷ ms) =
    if same_type m.type video && (is_active m.status && has_encoding m.dir)
    then some 0
    else next_index (find_sending_video ms)

module _ (p : Pjlib) where
  abbrev pub query : ℤ → M (Result CallInfo)
  query id = ask (call_get_info id) p.call_get_info

  -- pjsocky_call_get_info
  unfoldable pub get_info : ℤ → M (Result CallInfo)
  get_info id = do valid ← is_valid_call_id p id; if valid then query id else pure (err einval)

  offered_video : Result CallInfo → Result Bool
  offered_video (err e) = err e
  offered_video (ok info) = ok (ltb 0 info.rem_vid_cnt)

  unfoldable pub remote_offered_video : ℤ → M (Result Bool)
  unfolding offered_video
  remote_offered_video id w = let r = get_info id w in (offered_video r.0, r.1)

  counters_of : ℤ → Option ℕ → M (Result StreamStat)
  counters_of id none = pure (err enotfound)
  counters_of id (some i) = ask (call_get_stream_stat id i) p.call_get_stream_stat

  counters_in : ℤ → MediaType → Result CallInfo → M (Result StreamStat)
  unfolding counters_of
  counters_in id t (err e) = pure (err e)
  counters_in id t (ok info) = counters_of id (active_index t info.media)

  -- pjsocky_call_get_rtp_counters
  unfoldable pub get_rtp_counters : ℤ → MediaType → M (Result StreamStat)
  unfolding counters_in
  get_rtp_counters id t w = let r = get_info id w in counters_in id t r.0 r.1

  counters_in-SameState :
      (id : ℤ) (t : MediaType) (r : Result CallInfo) (w : World)
      → (counters_in id t r w).1 ≡ record w { history = (counters_in id t r w).1.history }
  unfolding counters_in counters_of
  counters_in-SameState id t (err e) w = refl
  counters_in-SameState id t (ok info) w = elim (Option-cases (active_index t info.media)) [
    | inl e ↦ rw (e, counters_of) refl
    | inr (i, e) ↦ rw (e, counters_of) refl
  ]

  -- So does a look at a call.
  pub get_info-SameState :
      (id : ℤ) (w : World) → (get_info id w).1 ≡ record w { history = (get_info id w).1.history }
  unfolding get_info is_valid_call_id
  get_info-SameState id w = ground arith

  -- Reading a call's counters changes the history alone.
  pub get_rtp_counters-SameState :
      (id : ℤ) (t : MediaType) (w : World)
      → (get_rtp_counters id t w).1 ≡ record w { history = (get_rtp_counters id t w).1.history }
  unfolding get_rtp_counters
  get_rtp_counters-SameState id t w =
      counters_in-SameState id t (get_info id w).0 (get_info id w).1
      ∙ ap {B = World} (λ x. record x { history = (get_rtp_counters id t w).1.history })
          (get_info-SameState id w)
