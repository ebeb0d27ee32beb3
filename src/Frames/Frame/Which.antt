-- ===== src/Frames/Frame/Which.antt =====
-- `frame::Which` of rust/src/schema/frames_capnp.rs.
use capnproto_test.Base.{Result}
use capnproto_test.Layout.{Layout}
use capnproto_test.Struct.{Reader, Builder}
use capnproto_test.Frames.AudioFrame.{audio_frame}
use capnproto_test.Frames.VideoFrame.{video_frame}

-- The cases are named apart from the structs.
pub data Which (A B : Type 0) : Type 0 where
  audio_frame_case : A → Which A B
  video_frame_case : B → Which A B

module _ ⦃R : Layout⦄ where
  abbrev pub WhichReader : Type 0
  WhichReader = Which (Result R.Error (Reader audio_frame)) (Result R.Error (Reader video_frame))

  abbrev pub WhichBuilder : Type 0
  WhichBuilder = Which (Result R.Error (Builder audio_frame)) (Result R.Error (Builder video_frame))
