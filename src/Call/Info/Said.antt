-- ===== src/Call/Info/Said.antt =====
-- Looking at a call says nothing.
use pjsocky.Call.Info.{active_index, counters_of, counters_in, get_info, get_rtp_counters}
use pjsocky.Call.{is_valid_call_id}
use pjsocky.Pjlib.{Pjlib, MediaType, CallInfo}
use pjsocky.Protocol.Said.{Silent}
use pjsocky.World.{World}
use pjsocky.Prelude.{ℕ, refl, ◌∙◌, Option, none, some, arith, ℤ, Result, ok, err}

module _ (p : Pjlib) where
  counters_of-Silent : (id : ℤ) (i : Option ℕ) (w : World) → Silent w (counters_of p id i w).1
  unfolding counters_of
  counters_of-Silent id none w = refl
  counters_of-Silent id (some i) w = refl

  counters_in-Silent :
      (id : ℤ) (t : MediaType) (r : Result CallInfo) (w : World)
      → Silent w (counters_in p id t r w).1
  unfolding counters_in
  counters_in-Silent id t (err e) w = refl
  counters_in-Silent id t (ok info) w = counters_of-Silent id (active_index t info.media) w

  pub get_info-Silent : (id : ℤ) (w : World) → Silent w (get_info p id w).1
  unfolding get_info is_valid_call_id
  get_info-Silent id w = ground arith

  pub get_rtp_counters-Silent :
      (id : ℤ) (t : MediaType) (w : World) → Silent w (get_rtp_counters p id t w).1
  unfolding get_rtp_counters
  get_rtp_counters-Silent id t w =
      let r = get_info p id w in counters_in-Silent id t r.0 r.1 ∙ get_info-Silent id w
