-- ===== src/Main/Logs.antt =====
-- What the two commands of rust/src/main.rs may have printed when they stop, as a state machine over the lines.
pub mod Rules
use Prim.Native.String.{String}
use capnproto_test.Base.{ℕ, List, [], ◌∷◌, ◌++◌, Outcome, ok, err, panic, ◌≢◌}
use capnproto_test.Layout.{Layout}
use capnproto_test.Main.World.{
  Line, stream_id, channels, pts, audio_data, not_audio_frame, connecting, encountered_error,
  got_response, value_is, all_done, World, Printed, Failure,
}

-- How far a command has come. `frames_main` goes from `idle` to `streamed`, `counted`, `timed` and `done`, or from
-- `idle` to `done`; `client_main` from `idle` to `asked`, `answered`, `shown` and `done`.
pub data Stage : Type 0 where
  idle streamed counted timed done : Stage
  asked answered shown : Stage

module _ ⦃R : Layout⦄ (before : List Printed) where
  pub data FramesLog : Stage → List Printed → Type 0 where
    nothing : FramesLog idle before
    stream :
        {l : List Printed} (k : ℕ) → FramesLog idle l → FramesLog streamed (l ++ stream_id k ∷ [])
    count :
        {l : List Printed} (n : ℕ) → FramesLog streamed l → FramesLog counted (l ++ channels n ∷ [])
    time : {l : List Printed} (t : ℕ) → FramesLog counted l → FramesLog timed (l ++ pts t ∷ [])
    bytes :
        {l : List Printed} (d : R.DataReader)
        → FramesLog timed l
        → FramesLog done (l ++ audio_data d ∷ [])
    other : {l : List Printed} → FramesLog idle l → FramesLog done (l ++ not_audio_frame ∷ [])

  -- The RPC system may report its end while one of the two requests is awaited.
  pub data ClientLog : Stage → List Printed → Type 0 where
    nothing_yet : ClientLog idle before
    connect :
        {l : List Printed} (addr : String)
        → ClientLog idle l
        → ClientLog asked (l ++ connecting addr ∷ [])
    ended :
        {l : List Printed} (e : R.Error)
        → ClientLog asked l
        → ClientLog asked (l ++ encountered_error e ∷ [])
    response : {l : List Printed} → ClientLog asked l → ClientLog answered (l ++ got_response ∷ [])
    ended_later :
        {l : List Printed} (e : R.Error)
        → ClientLog answered l
        → ClientLog answered (l ++ encountered_error e ∷ [])
    value :
        {l : List Printed} (v : ℕ) → ClientLog answered l → ClientLog shown (l ++ value_is v ∷ [])
    finish : {l : List Printed} → ClientLog shown l → ClientLog done (l ++ all_done ∷ [])

-- How a command may stop: by `Ok` when everything is printed, and otherwise before that.
module _ ⦃R : Layout⦄ (Log : Stage → List Printed → Type 0) where
  pub data Stops {IoError A : Type 0} : Outcome World (Failure IoError) A → Type 0 where
    finished : {a : A} {w : World} → Log done w.lines → Stops (ok a w)
    failed :
        {e : Failure IoError} {w : World} {stage : Stage}
        → stage ≢ done
        → Log stage w.lines
        → Stops (err e w)
    panicked : {w : World} {stage : Stage} → stage ≢ done → Log stage w.lines → Stops (panic w)
