-- ===== src/Frames/VideoFrame/PixelFormats.antt =====
-- `video_frame::PixelFormat` of rust/src/schema/frames_capnp.rs.
pub mod Numbers
use capnproto_test.Base.{ℕ, ◌==◌, if◌then◌else◌, InSchema, known, not_in_schema}

pub data PixelFormat : Type 0 where
  rgba : PixelFormat

-- `FromU16::from_u16`
unfoldable pub from_u16 : ℕ → InSchema PixelFormat
from_u16 n = if n == 0 then known rgba else not_in_schema n

-- `ToU16::to_u16`, and `as u16`
unfoldable pub to_u16 : PixelFormat → ℕ
to_u16 rgba = 0

-- `HasTypeId`
abbrev pub pixel_format_type_id : ℕ
pixel_format_type_id = 0xc4c6_654a_3e32_b1ca
