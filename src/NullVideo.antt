-- ===== src/NullVideo.antt =====
-- src/null_video_dev.c: the render device that shows nothing, so that a call can receive video where
-- there is no display. Its pools and the log are left out; PJ_ASSERT_RETURN is modelled as the return
-- (where assertions are compiled in it aborts). What pjmedia does with the device is its own.
pub mod Session
mod Tests
use pjsocky.Pjlib.{Dir, decoding, invalid_dev}
use pjsocky.Prelude.{
  String, ℕ, Bool, true, false, List, ◌==◌, if◌then◌else◌, ℤ, pos, Status, Result, failure, success,
  enomem, evid_invdev, evid_invcap, ok, err,
}

-- pjmedia_format, as far as the device has it.
pub data FormatId : Type 0 where
  i420 : FormatId
  other_format : ℕ → FormatId

pub record Format : Type 0 where
  pub id : FormatId
  pub width : ℕ
  pub height : ℕ
  pub fps_num : ℕ
  pub fps_denum : ℕ

pub data Cap : Type 0 where
  format_cap : Cap
  other_cap : ℕ → Cap

-- pjmedia_vid_dev_info; the device has one capability and one format.
pub record Info : Type 0 where
  pub name : String
  pub driver : String
  pub dir : Dir
  pub has_callback : Bool
  pub cap : Cap
  pub fmt : Format

-- pjmedia_vid_dev_param
pub record Param : Type 0 where
  pub dir : Dir
  pub rend_id : ℤ
  pub cap_id : ℤ
  pub clock_rate : ℕ
  pub flags : ℕ
  pub fmt : Format

unfoldable pub factory_init : Info
factory_init = record {
  name = "Null renderer";
  driver = "Null";
  dir = decoding;
  has_callback = false;
  cap = format_cap;
  fmt = record { id = i420; width = 640; height = 480; fps_num = 25; fps_denum = 1 };
}

unfoldable pub factory_get_dev_count : ℕ
factory_get_dev_count = 1

unfoldable pub factory_get_dev_info : Info → ℕ → Result Info
factory_get_dev_info info index = if index == 0 then ok info else err evid_invdev

unfoldable pub factory_default_param : Info → ℕ → Result Param
factory_default_param info index =
    if index == 0
    then ok (record {
      dir = decoding;
      rend_id = pos index;
      cap_id = invalid_dev;
      clock_rate = 0;
      flags = 0;
      fmt = info.fmt;
    })
    else err evid_invdev

abbrev pub is_render : Dir → Bool
is_render decoding = true
is_render _ = false

-- The stream is its parameter; `pooled` is whether its pool could be had.
unfoldable pub factory_create_stream : Bool → Param → Result Param
factory_create_stream pooled param =
    if is_render param.dir then (if pooled then ok param else err enomem) else err evid_invdev

unfoldable pub stream_get_param : Param → Param
stream_get_param strm = strm

unfoldable pub stream_get_cap : Param → Cap → Result Format
stream_get_cap strm format_cap = ok strm.fmt
stream_get_cap strm (other_cap n) = err evid_invcap

unfoldable pub stream_set_cap : Param → Cap → Format → Status × Param
stream_set_cap strm format_cap fmt = (success, record strm { fmt = fmt })
stream_set_cap strm (other_cap n) fmt = (failure evid_invcap, strm)

unfoldable pub stream_start : Param → Status × Param
stream_start strm = (success, strm)

-- The frame is discarded.
unfoldable pub stream_put_frame : Param → List ℕ → Status × Param
stream_put_frame strm frame = (success, strm)

unfoldable pub stream_stop : Param → Status × Param
stream_stop strm = (success, strm)
