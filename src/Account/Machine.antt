-- ===== src/Account/Machine.antt =====
-- The account that src/account.c holds against the requests it has made: `live` reads off the history
-- which accounts pjsua-lib has.
use pjsocky.Account.{
  first_capture, account_config, resolve_default_vid_cap_dev, configure, added, set_registration,
  register, unregister, remove, deleted, reg_state_known, on_reg_state2, build_reg_state_data,
}
use pjsocky.Device.{list_video}
use pjsocky.Events.Push.{push-SameState}
use pjsocky.Pjlib.{
  Pjlib, History, VideoDevice, AccConfig, AccInfo, acc_add, acc_del, acc_get_info, has_encoding,
  invalid_id, invalid_dev,
}
use pjsocky.World.{World, ask}
use pjsocky.Prelude.{
  String, ℕ, ◌/◌, ◌≡◌, refl, ap, ◌∙◌, inl, inr, Bool, true, false, ◌&&◌, ◌||◌, List, [], ◌∷◌, ◌++◌,
  arith, ltb, leb, ◌==◌, if◌then◌else◌, Bool-cases, ℤ, is_equal, is_equal_refl, is_success, Result,
  eexists, ok, err,
}

abbrev without : ℤ → List ℤ → List ℤ
without id [] = []
without id (x ∷ xs) = let rest = without id xs in if is_equal x id then rest else x ∷ rest

abbrev pub with_added : Result ℤ → List ℤ → List ℤ
with_added (ok id) ids = id ∷ ids
with_added (err e) ids = ids

-- The accounts that were added and not deleted.
unfoldable pub live : Pjlib → History → List ℤ
live p [] = []
live p (acc_add cfg ∷ h) = with_added (p.acc_add (acc_add cfg ∷ h)) (live p h)
live p (acc_del id ∷ h) =
    let ids = live p h in if is_success (p.acc_del (acc_del id ∷ h)) then without id ids else ids
live p (_ ∷ h) = live p h

-- pjsua-lib has the account that the daemon holds, and no other.
abbrev pub Tracks : Pjlib → World → Type 0
Tracks p w = live p w.history ≡ (if is_equal w.acc_id invalid_id then [] else w.acc_id ∷ [])

-- PJSUA_INVALID_ID is no account's id.
abbrev pub AddsValid : Pjlib → Type 0
AddsValid p = (h : History) (id : ℤ) → p.acc_add h ≡ ok id → is_equal id invalid_id ≡ false

pub data Operation : Type 0 where
  configure_account : (sip_uri registrar_uri username password realm : String) → Operation
  register_account unregister_account remove_account : Operation

abbrev pub step : Pjlib → Operation → World → World
step p (configure_account s r u pw re) w = (configure p s r u pw re w).1
step p register_account w = (register p w).1
step p unregister_account w = (unregister p w).1
step p remove_account w = (remove p w).1

abbrev pub run : Pjlib → List Operation → World → World
run p [] w = w
run p (o ∷ rest) w = run p rest (step p o w)

module _ (p : Pjlib) (s r u pw re : String) (w : World) where
  pub configure-absent :
      is_equal w.acc_id invalid_id ≡ true
      → configure p s r u pw re w ≡ (
          let v = resolve_default_vid_cap_dev p (record w { registered = false }) in
          let a = ask (acc_add (account_config p s r u pw re v.0)) p.acc_add v.1 in added p a.0 a.1)
  unfolding configure
  configure-absent e = rw e refl

  pub configure-present :
      is_equal w.acc_id invalid_id ≡ false → configure p s r u pw re w ≡ (err eexists, w)
  unfolding configure
  configure-present e = rw e refl

module _ (p : Pjlib) (valid : AddsValid p) where
  added-Tracks :
      (r : Result ℤ) (cfg : AccConfig) (w : World) (h : History)
      → is_equal w.acc_id invalid_id ≡ true
      → p.acc_add (acc_add cfg ∷ h) ≡ r
      → w.history ≡ acc_add cfg ∷ h
      → live p h ≡ []
      → Tracks p (added p r w).1
  unfolding added live
  added-Tracks (err e) cfg w h none_yet a b before = rw (b, a, none_yet) before
  added-Tracks (ok id) cfg w h none_yet a b before = rw (b, a, valid _ id a, before)

  resolve-live : (w : World) → live p (resolve_default_vid_cap_dev p w).1.history ≡ live p w.history
  unfolding resolve_default_vid_cap_dev list_video live
  resolve-live w = ground arith

  resolve-acc : (w : World) → (resolve_default_vid_cap_dev p w).1.acc_id ≡ w.acc_id
  unfolding resolve_default_vid_cap_dev list_video
  resolve-acc w = ground arith

  module _ (s r u pw re : String) (w : World) where
    configure-Tracks : Tracks p w → Tracks p (configure p s r u pw re w).1
    configure-Tracks t = elim (Bool-cases (is_equal w.acc_id invalid_id)) [
      | inl e ↦ rw (configure-absent p s r u pw re w e) (
          added-Tracks _ _ _ _
            (ap (λ x. is_equal x invalid_id) (resolve-acc (record w { registered = false })) ∙ e)
            refl refl (resolve-live (record w { registered = false }) ∙ t ∙ rw e refl))
      | inr e ↦ rw (configure-present p s r u pw re w e) t
    ]

  step-Tracks : (o : Operation) (w : World) → Tracks p w → Tracks p (step p o w)
  unfolding register unregister remove set_registration deleted live
  step-Tracks (configure_account s r u pw re) w t = configure-Tracks s r u pw re w t
  step-Tracks register_account w t = ground arith
  step-Tracks unregister_account w t = ground arith
  step-Tracks remove_account w t = ground (arith, is_equal_refl w.acc_id)

  run-Tracks_from : (ops : List Operation) (w : World) → Tracks p w → Tracks p (run p ops w)
  run-Tracks_from [] w t = t
  run-Tracks_from (o ∷ rest) w t = run-Tracks_from rest (step p o w) (step-Tracks o w t)

-- Whatever account commands are run, in whatever order and however pjsua-lib answers: the accounts
-- that it has been given and not told to delete are exactly the one whose id the daemon holds, or none. So
-- there is never a second account, and none is forgotten. The conditions are that this was so before, and
-- that an added account's id is not PJSUA_INVALID_ID.
pub run-Tracks :
    (p : Pjlib)
    → AddsValid p
    → (ops : List Operation) (w : World) → Tracks p w
    → Tracks p (run p ops w)
run-Tracks p valid ops w t = run-Tracks_from p valid ops w t

-- Whether a device of the list can capture.
abbrev pub any_capture : List VideoDevice → Bool
any_capture [] = false
any_capture (d ∷ ds) = has_encoding d.dir || any_capture ds

-- The default capture device is the first that can capture: where no device in front of it can and
-- it can, it is chosen, and where none can, there is none.
first_capture_lem :
    (before after : List VideoDevice) (d : VideoDevice)
    → any_capture before ≡ false
    → (first_capture before ≡ invalid_dev)
      × (has_encoding d.dir ≡ true → first_capture (before ++ d ∷ after) ≡ d.id)
unfolding first_capture
first_capture_lem [] after d h = (refl, λ e. rw e refl)
first_capture_lem (b ∷ before) after d h = ground (arith, first_capture_lem before after d)

-- The registration that a report leaves.
pub Reports : Bool → World → History → Result AccInfo → World → Type 0
Reports renew w h (err e) v = v ≡ record w { history = h }
Reports renew w h (ok info) v = v ≡ record w {
  registered = renew && (leb 200 info.status && ltb info.status 300);
  history = v.history;
}

is_2xx : (n : ℕ) → (n / 100 == 2) ≡ (leb 200 n && ltb n 300)
is_2xx n = ground arith

reg_state_known-Reports :
    (p : Pjlib) (renew : Bool) (r : Result AccInfo) (w : World)
    → Reports renew w w.history r (reg_state_known p renew r w).1
unfolding reg_state_known Reports
reg_state_known-Reports p renew (err e) w = refl
reg_state_known-Reports p renew (ok info) w =
    let registered = renew && info.status / 100 == 2 in
    rw (← is_2xx info.status) (
      push-SameState p "reg_state" (build_reg_state_data info registered)
        (record w { registered = registered }))

-- A report on the registration sets whether the account is registered to: the report is on a
-- REGISTER and its status is 2xx. Where pjsua-lib does not know the account, it stays as it
-- was. Nothing else of the state changes but the history.
pub on_reg_state2-Reports :
    (p : Pjlib) (acc_id : ℤ) (renew : Bool) (w : World)
    → let h = acc_get_info acc_id ∷ w.history in
      Reports renew w h (p.acc_get_info h) (on_reg_state2 p acc_id renew w).1
unfolding on_reg_state2 Reports
on_reg_state2-Reports p acc_id renew w =
    let h = acc_get_info acc_id ∷ w.history in
    reg_state_known-Reports p renew (p.acc_get_info h) (record w { history = h })
