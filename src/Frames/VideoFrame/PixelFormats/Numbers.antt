-- ===== src/Frames/VideoFrame/PixelFormats/Numbers.antt =====
-- `PixelFormat` against its numbers on the wire.
use capnproto_test.Base.{◌^◌, ◌<◌, ◌≡◌, refl, known, arith}
use capnproto_test.Frames.VideoFrame.PixelFormats.{PixelFormat, rgba, from_u16, to_u16}

pub to_u16-lt : (p : PixelFormat) → to_u16 p < 2 ^ 16
unfolding to_u16
to_u16-lt rgba = omega arith

pub from_u16-to_u16 : (p : PixelFormat) → from_u16 (to_u16 p) ≡ known p
unfolding from_u16 to_u16
from_u16-to_u16 rgba = refl
