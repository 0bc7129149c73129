-- ===== src/Call/Negotiated.antt =====
-- src/call.c: what the log says of a negotiation. The lines are its purpose, so each is a request to the
-- environment.
pub mod Lines
pub mod Said
use pjsocky.Call.Info.{is_active}
use pjsocky.Pjlib.{
  Pjlib, Dir, no_dir, encoding, decoding, encoding_decoding, other_dir, MediaType, audio, video,
  other_media, MediaStatus, no_media, active, local_hold, remote_hold, media_error, other_status,
  Media, CallInfo, StreamInfo, MediaLine, plain, streaming, negotiated, call_get_stream_info,
  media_line,
}
use pjsocky.World.{World, ask, tell}
use pjsocky.Prelude.{
  String, ℕ, suc, ◌-◌, none, List, [], ◌∷◌, if◌then◌else◌, ℤ, length, Result, ok, err,
}

-- `type` of log_negotiated_media
unfoldable pub type_str : MediaType → String
type_str audio = "audio"
type_str video = "video"
type_str other_media = "other"

unfoldable pub media_status_str : MediaStatus → String
media_status_str no_media = "none"
media_status_str active = "active"
media_status_str local_hold = "local-hold"
media_status_str remote_hold = "remote-hold"
media_status_str media_error = "error"
media_status_str other_status = "?"

unfoldable pub dir_str : Dir → String
dir_str no_dir = "inactive"
dir_str encoding = "sendonly"
dir_str decoding = "recvonly"
dir_str encoding_decoding = "sendrecv"
dir_str other_dir = "?"

-- An m-line without a stream, and one with the stream's info.
unfoldable pub plain_line : ℕ → Media → MediaLine
plain_line i m = plain i (type_str m.type) (media_status_str m.status) (dir_str m.dir)

unfoldable pub stream_line : ℕ → Media → StreamInfo → MediaLine
stream_line i m si =
    streaming i (if si.is_video then "video" else "audio") (dir_str m.dir) si.encoding_name si.tx_pt
      si.rx_pt

module _ (p : Pjlib) where
  known_line : ℕ → Media → Result StreamInfo → MediaLine
  unfolding plain_line stream_line
  known_line i m (err e) = plain_line i m
  known_line i m (ok si) = stream_line i m si

  unfoldable pub log_media : ℤ → ℕ → List Media → World → World
  unfolding known_line
  log_media id i [] w = w
  log_media id i (m ∷ ms) w = log_media id (suc i) ms (
      if is_active m.status
      then (let r = ask (call_get_stream_info id i) p.call_get_stream_info w in
          (tell (media_line id (known_line i m r.0)) r.1).1)
      else (tell (media_line id (plain_line i m)) w).1)

  unfoldable pub log_negotiated_media : ℤ → CallInfo → World → World
  unfolding log_media
  log_negotiated_media id info w =
      (tell (media_line id (negotiated (length info.media) info.rem_aud_cnt info.rem_vid_cnt))
        (log_media id 0 info.media w)).1
