-- ===== src/Frames/Frame/Discriminant.antt =====
-- What `frame::Reader` makes of any message: its case is decided by the discriminant alone.
use capnproto_test.Base.{
  ◌≤◌, ◌≡◌, ◌↔◌, true, false, ok, Result, known, not_in_schema, arith, inl, inr, Outcome-cases,
}
use capnproto_test.Layout.{Layout}
use capnproto_test.Layout.Elements.{u16}
use capnproto_test.Layout.Laws.{Content, IsLawful}
use capnproto_test.Struct.{Reader, reader_from_pointer}
use capnproto_test.Frames.AudioFrame.{audio_frame}
use capnproto_test.Frames.VideoFrame.{video_frame}
use capnproto_test.Frames.Frame.{frame}
use capnproto_test.Frames.Frame.Which.{audio_frame_case, video_frame_case}
use capnproto_test.Frames.Frame.Reader

module _ ⦃R : Layout⦄ {C : Content R} (L : IsLawful R C) (r : Reader frame) (s : R.State) where
  -- `which` of a reader of a frame refuses the discriminant with its number, and changes nothing,
  -- exactly when the discriminant is 2 or more.
  pub which-not_in_schema :
      (Reader.which r s ≡ ok (not_in_schema (R.get_data_field r.reader u16 0)) s)
      ↔ (2 ≤ R.get_data_field r.reader u16 0)
  unfolding Reader.which
  which-not_in_schema = (λ e. ground arith, λ h. ground arith)

  -- Of any reader of a frame for which `has_audio_frame` holds, `has_video_frame` does not, and
  -- `which` gives the audio case, be its struct readable or not.
  pub has_audio_frame-which :
      Reader.has_audio_frame r ≡ true
      → (Reader.has_video_frame r ≡ false)
        × (res : Result R.Error (Reader audio_frame)) × (t : R.State) × (Reader.which r s
            ≡ ok (known (audio_frame_case res)) t)
  unfolding Reader.has_audio_frame Reader.has_video_frame Reader.which reader_from_pointer
  has_audio_frame-which h =
      let p = R.get_pointer_field r.reader 0 in
      elim (Outcome-cases (R.get_struct p s)) [
        | inl (a, t, e) ↦ (ground arith, Result.ok (record { reader = a }), t, ground arith)
        | inr (inl (x, t, e)) ↦ (ground arith, Result.err x, t, ground arith)
        | inr (inr (t, e)) ↦ absurd (L.get_struct-ne_panic p s t e)
      ]

  -- Of any reader of a frame for which `has_video_frame` holds, `has_audio_frame` does not, and
  -- `which` gives the video case, be its struct readable or not.
  pub has_video_frame-which :
      Reader.has_video_frame r ≡ true
      → (Reader.has_audio_frame r ≡ false)
        × (res : Result R.Error (Reader video_frame)) × (t : R.State) × (Reader.which r s
            ≡ ok (known (video_frame_case res)) t)
  unfolding Reader.has_video_frame Reader.has_audio_frame Reader.which reader_from_pointer
  has_video_frame-which h =
      let p = R.get_pointer_field r.reader 0 in
      elim (Outcome-cases (R.get_struct p s)) [
        | inl (a, t, e) ↦ (ground arith, Result.ok (record { reader = a }), t, ground arith)
        | inr (inl (x, t, e)) ↦ (ground arith, Result.err x, t, ground arith)
        | inr (inr (t, e)) ↦ absurd (L.get_struct-ne_panic p s t e)
      ]
