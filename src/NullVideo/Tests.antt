-- ===== src/NullVideo/Tests.antt =====
-- Runs of the null device.
use pjsocky.NullVideo.{
  Format, i420, format_cap, other_cap, Param, factory_init, factory_get_dev_count,
  factory_get_dev_info, factory_default_param, factory_create_stream, stream_get_param,
  stream_get_cap, stream_set_cap,
}
use pjsocky.NullVideo.Session.{
  Operation, start_stream, put_frame, set_cap, run, last_format, session_reads_back,
}
use pjsocky.Pjlib.{decoding, invalid_dev}
use pjsocky.Prelude.{◌≡◌, refl, true, List, [], ◌∷◌, ltb, pos, success, ok}

abbrev vga : Format
vga = record { id = i420; width = 640; height = 480; fps_num = 25; fps_denum = 1 }

abbrev cif : Format
cif = record { id = i420; width = 352; height = 288; fps_num = 15; fps_denum = 1 }

abbrev plain : Param
plain = record {
  dir = decoding;
  rend_id = pos 0;
  cap_id = invalid_dev;
  clock_rate = 0;
  flags = 0;
  fmt = vga;
}

plain_default : factory_default_param factory_init 0 ≡ ok plain
unfolding factory_default_param factory_init
plain_default = refl

-- The decoded picture turns out to be smaller than the window that was opened.
abbrev session : List Operation
session = start_stream ∷ put_frame [] ∷ set_cap format_cap cif ∷ set_cap (other_cap 3) vga ∷ []

session_reads_back_example :
    (ltb 0 factory_get_dev_count ≡ true)
    × (factory_get_dev_info factory_init 0 ≡ ok factory_init)
    × (factory_create_stream true plain ≡ ok plain)
    × (stream_get_cap (run session plain) format_cap ≡ ok (last_format session factory_init.fmt))
    × (stream_get_param (run session plain)
        ≡ record plain { fmt = last_format session factory_init.fmt })
    × ((stream_set_cap (run session plain) format_cap vga).0 ≡ success)
session_reads_back_example = session_reads_back 0 plain session vga plain_default
