-- ===== src/Call/Negotiated/Said.antt =====
-- The lines about a negotiation say nothing to the client.
use pjsocky.Call.Info.{is_active}
use pjsocky.Call.Negotiated.{log_media, log_negotiated_media}
use pjsocky.Pjlib.{Pjlib, Media, CallInfo}
use pjsocky.Protocol.Said.{Silent}
use pjsocky.World.{World}
use pjsocky.Prelude.{ℕ, suc, refl, ◌∙◌, List, [], ◌∷◌, if-elim, ℤ}

module _ (p : Pjlib) (id : ℤ) where
  log_media-Silent : (i : ℕ) (ms : List Media) (w : World) → Silent w (log_media p id i ms w)
  unfolding log_media
  log_media-Silent i [] w = refl
  log_media-Silent i (m ∷ ms) w =
      log_media-Silent (suc i) ms _
      ∙ if-elim (Silent w) (is_active m.status) (λ e. refl) (λ e. refl)

  pub log_negotiated_media-Silent :
      (info : CallInfo) (w : World) → Silent w (log_negotiated_media p id info w)
  unfolding log_negotiated_media
  log_negotiated_media-Silent info w = log_media-Silent 0 info.media w
