-- ===== src/NullVideo/Session.antt =====
-- What pjmedia can do with a stream of the null device, and what it then reads back.
use pjsocky.NullVideo.{
  Format, Cap, format_cap, other_cap, Param, factory_init, factory_get_dev_count,
  factory_get_dev_info, factory_default_param, factory_create_stream, stream_get_param,
  stream_get_cap, stream_set_cap, stream_start, stream_put_frame, stream_stop,
}
use pjsocky.Prelude.{
  ℕ, zero, suc, ◌≡◌, refl, ap, ◌∙◌, subst, true, List, [], ◌∷◌, arith, ltb, Status, success, ok,
}

pub data Operation : Type 0 where
  start_stream stop_stream : Operation
  put_frame : List ℕ → Operation
  set_cap : Cap → Format → Operation

abbrev pub step : Operation → Param → Status × Param
step start_stream strm = stream_start strm
step stop_stream strm = stream_stop strm
step (put_frame frame) strm = stream_put_frame strm frame
step (set_cap cap fmt) strm = stream_set_cap strm cap fmt

abbrev pub run : List Operation → Param → Param
run [] strm = strm
run (o ∷ rest) strm = run rest (step o strm).1

-- The format that was last set.
abbrev pub last_format : List Operation → Format → Format
last_format [] fmt = fmt
last_format (set_cap format_cap next ∷ rest) fmt = last_format rest next
last_format (_ ∷ rest) fmt = last_format rest fmt

run-last_format :
    (ops : List Operation) (strm : Param)
    → run ops strm ≡ record strm { fmt = last_format ops strm.fmt }
unfolding stream_start stream_stop stream_put_frame stream_set_cap
run-last_format [] strm = refl
run-last_format (start_stream ∷ rest) strm = run-last_format rest strm
run-last_format (stop_stream ∷ rest) strm = run-last_format rest strm
run-last_format (put_frame frame ∷ rest) strm = run-last_format rest strm
run-last_format (set_cap format_cap fmt ∷ rest) strm =
    run-last_format rest (record strm { fmt = fmt })
run-last_format (set_cap (other_cap n) fmt ∷ rest) strm = run-last_format rest strm

-- After any run of operations a stream reads back the format that was last set, both as its capability
-- and in its parameter, whose other fields are as at its creation; a format change is never refused.
stream_reads_back :
    (ops : List Operation) (strm : Param) (fmt : Format)
    → (stream_get_cap (run ops strm) format_cap ≡ ok (last_format ops strm.fmt))
      × (stream_get_param (run ops strm) ≡ record strm { fmt = last_format ops strm.fmt })
      × ((stream_set_cap (run ops strm) format_cap fmt).0 ≡ success)
unfolding stream_get_cap stream_get_param stream_set_cap
stream_reads_back ops strm fmt =
    (ap (λ s. ok s.fmt) (run-last_format ops strm), run-last_format ops strm, refl)

ok-injective {ℓ} : {A : Type ℓ} {a b : A} → ok a ≡ ok b → a ≡ b
ok-injective equal = cc

-- An index for which the device has a default parameter is below the number of devices and has the
-- device's description; a stream is created with that parameter, and it reads back the format of the
-- description.
factory_offers :
    (index : ℕ) (default : Param)
    → factory_default_param factory_init index ≡ ok default
    → (ltb index factory_get_dev_count ≡ true)
      × (factory_get_dev_info factory_init index ≡ ok factory_init)
      × (factory_create_stream true default ≡ ok default)
      × (stream_get_cap default format_cap ≡ ok factory_init.fmt)
unfolding factory_create_stream factory_get_dev_info factory_default_param factory_get_dev_count
    stream_get_cap
factory_offers zero default offered =
    subst
      (λ p.
        (ltb 0 factory_get_dev_count ≡ true)
        × (factory_get_dev_info factory_init 0 ≡ ok factory_init)
        × (factory_create_stream true p ≡ ok p)
        × (stream_get_cap p format_cap ≡ ok factory_init.fmt))
      (ok-injective offered) (refl, refl, refl, refl)
factory_offers (suc k) default offered = ground arith

-- An index for which the device has a default parameter is below the number of devices, and a stream is
-- created with that parameter. After any run of operations the stream reads back the format that was
-- last set, and before the first change the one of the device's description, both as its
-- capability and in its parameter, whose other fields are as at its creation; a format change is never
-- refused.
pub session_reads_back :
    (index : ℕ) (default : Param) (ops : List Operation) (fmt : Format)
    → factory_default_param factory_init index ≡ ok default
    → let strm = run ops default in
      let last = last_format ops factory_init.fmt in
      (ltb index factory_get_dev_count ≡ true)
      × (factory_get_dev_info factory_init index ≡ ok factory_init)
      × (factory_create_stream true default ≡ ok default)
      × (stream_get_cap strm format_cap ≡ ok last)
      × (stream_get_param strm ≡ record default { fmt = last })
      × ((stream_set_cap strm format_cap fmt).0 ≡ success)
unfolding stream_get_cap
session_reads_back index default ops fmt offered =
    let (known, info, made, cap) = factory_offers index default offered in
    let (last, param, set) = stream_reads_back ops default fmt in
    let first = ap (last_format ops) (ok-injective cap) in
    (known, info, made, last ∙ ap ok first, param ∙ ap (λ f. record default { fmt = f }) first, set)
