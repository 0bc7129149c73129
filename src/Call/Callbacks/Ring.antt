-- ===== src/Call/Callbacks/Ring.antt =====
-- The ring timeout, offers, and the end of a call.
use pjsocky.Call.{cancel}
use pjsocky.Call.Callbacks.{
  OfferLine, offered_video_count, on_call_rx_offer, reject_ringing, ring_timer_cb,
  temporarily_unavailable, stop_ringing, forget, call_state_known, on_call_state,
  build_call_state_data,
}
use pjsocky.Call.Info.{is_ringing, is_disconnected}
use pjsocky.Events.Push.{push-SameState}
use pjsocky.Pjlib.{Pjlib, History, CallInfo, CallSetting, call_get_info, call_hangup, invalid_id}
use pjsocky.World.{World}
use pjsocky.Prelude.{
  ◌+◌, ◌≤◌, ◌<◌, ◌≡◌, refl, sym, ◌∙◌, subst, inl, inr, Bool, true, false, not, ◌&&◌, ◌||◌, some,
  List, [], ◌∷◌, arith, ltb, ◌==◌, if◌then◌else◌, Bool-cases, ℤ, is_equal, is_equal_refl, Result,
  ok, err,
}

-- A media line of an offer that brings video: its type is "video" and it is not disabled.
abbrev pub offers_video : List OfferLine → Bool
offers_video [] = false
offers_video (m ∷ ms) = (m.is_video && not (m.port == 0)) || offers_video ms

offered_video_count-pos : (ms : List OfferLine) → ltb 0 (offered_video_count ms) ≡ offers_video ms
unfolding offered_video_count
offered_video_count-pos [] = refl
offered_video_count-pos (m ∷ ms) = ground (arith, offered_video_count-pos ms)

-- The answer to an offer has no text stream, and has video exactly where the setting had it or the
-- offer has a video line whose port is not 0; a setting that had video keeps its number of streams, and none gets more
-- than one more.
pub on_call_rx_offer_lem :
    (offer : List OfferLine) (opt : CallSetting)
    → let s = on_call_rx_offer (some offer) opt in
      (s.txt_cnt ≡ 0)
      × (ltb 0 s.vid_cnt ≡ (ltb 0 opt.vid_cnt || offers_video offer))
      × (0 < opt.vid_cnt → s.vid_cnt ≡ opt.vid_cnt)
      × (s.vid_cnt ≤ opt.vid_cnt + 1)
unfolding on_call_rx_offer
on_call_rx_offer_lem offer opt = ground (arith, offered_video_count-pos offer)

abbrev pub rings : Result CallInfo → Bool
rings (err e) = false
rings (ok info) = is_ringing info.state

reject_ringing_lem :
    (p : Pjlib) (id : ℤ) (r : Result CallInfo) (w : World)
    → reject_ringing p id r w ≡ (
        if rings r
        then record w { history = call_hangup id temporarily_unavailable ∷ w.history }
        else w)
unfolding reject_ringing
reject_ringing_lem p id (err e) w = refl
reject_ringing_lem p id (ok info) w = ground arith

-- When the ring timeout fires, the call that it was set for is hung up with 480 exactly if it still
-- rings; the timer is no longer scheduled, and nothing else changes.
ring_timer_cb_lem :
    (p : Pjlib) (w : World)
    → let id = w.ring.user_data in
      let h = call_get_info id ∷ w.history in
      let answer = p.call_get_info h in
      ring_timer_cb p w ≡ record w {
        ring = record { scheduled = false; user_data = id };
        history = if rings answer then call_hangup id temporarily_unavailable ∷ h else h;
      }
unfolding ring_timer_cb
ring_timer_cb_lem p w =
    let id = w.ring.user_data in
    let h = call_get_info id ∷ w.history in
    reject_ringing_lem p id (p.call_get_info h)
      (record w { ring = record { scheduled = false; user_data = id }; history = h })
    ∙ elim (Bool-cases (rings (p.call_get_info h))) [ inl e ↦ rw e refl | inr e ↦ rw e refl ]

-- What is left of a call, and of the timers, when the state `info` of the call `id` was reported.
pub Forgets : ℤ → Result CallInfo → World → World → Type 0
Forgets id (err e) w v = v ≡ record w { history = v.history }
Forgets id (ok info) w v =
    (is_disconnected info.state ≡ true
      → (is_equal v.call_id id ≡ false)
        × (is_equal v.video_failed_call_id id ≡ false)
        × (v.watchdog.scheduled ≡ false)
        × (v.report.scheduled ≡ false))
    × (is_disconnected info.state ≡ false
        → (v.call_id ≡ w.call_id)
          × (v.video_failed_call_id ≡ w.video_failed_call_id)
          × (v.watchdog ≡ w.watchdog)
          × (v.report ≡ w.report))
    × (v.ring.scheduled
        ≡ (w.ring.scheduled && not (is_equal id w.ring.user_data && not (is_ringing info.state))))

module _ (p : Pjlib) (id : ℤ) (known : is_equal invalid_id id ≡ false) where
  before_push :
      (info : CallInfo) (w : World)
      → Forgets id (ok info) w (forget p id info (stop_ringing p id info w))
  unfolding Forgets forget stop_ringing cancel
  before_push info w = ground (arith, is_equal_refl id)

  call_state_known-Forgets :
      (r : Result CallInfo) (w : World) → Forgets id r w (call_state_known p id r w)
  unfolding call_state_known Forgets
  call_state_known-Forgets (err e) w = refl
  call_state_known-Forgets (ok info) w =
      let u = forget p id info (stop_ringing p id info w) in
      subst (λ v. Forgets id (ok info) w v)
        (sym (push-SameState p "call_state" (build_call_state_data info) u)) (before_push info w)

Forgets-before :
    (id : ℤ) (r : Result CallInfo) (h : History) (w v : World)
    → Forgets id r (record w { history = h }) v
    → Forgets id r w v
unfolding Forgets
Forgets-before id (err e) h w v f = f
Forgets-before id (ok info) h w v f = f

-- A report that a call is disconnected leaves neither the current call nor the call whose video was
-- given up at that call, and neither the watchdog nor the media report scheduled. A report of
-- another state leaves all four as they were. In both the ring timeout is taken back exactly if it
-- was set for that call and the call does not ring. If pjsua-lib does not know the call, nothing but the
-- history changes. The call's id is not PJSUA_INVALID_ID.
pub on_call_state-Forgets :
    (p : Pjlib) (id : ℤ) (w : World)
    → is_equal invalid_id id ≡ false
    → Forgets id (p.call_get_info (call_get_info id ∷ w.history)) w (on_call_state p id w)
unfolding on_call_state
on_call_state-Forgets p id w known =
    let h = call_get_info id ∷ w.history in
    Forgets-before id (p.call_get_info h) h w _
      (call_state_known-Forgets p id known (p.call_get_info h) (record w { history = h }))
