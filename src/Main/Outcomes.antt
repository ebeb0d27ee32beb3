-- ===== src/Main/Outcomes.antt =====
-- How a run of `main` ends, whatever the arguments, the files and the network are.
use Prim.Native.String.{String}
use text.Mathlib.Text.{◌==◌}
use text.Mathlib.TextEquality.{eq_iff}
use mathlib.Core.Path.{subst}
use capnproto_test.Base.{
  List, [], ◌∷◌, some, Option, ◌≡◌, ◌≢◌, refl, sym, Bool, true, false, Outcome, ok, err, panic,
  if◌then◌else◌, get_elem?, arith,
}
use capnproto_test.Layout.{Layout}
use capnproto_test.Layout.Rpc.{Rpc}
use capnproto_test.Main.World.{Files, Network, Failure, Ending, Printed, World}
use capnproto_test.Main.Logs.{Stage, done, FramesLog, ClientLog, Stops, finished, failed, panicked}
use capnproto_test.Main.Frames.{frames_main}
use capnproto_test.Main.Frames.Output.{frames_main-Stops}
use capnproto_test.Main.Client.{client_main}
use capnproto_test.Main.Client.Output.{client_main-Stops}
use capnproto_test.Main.{expect_ok, main}

-- The process exits with everything printed, or panics before.
module _ ⦃R : Layout⦄ (Log : Stage → List Printed → Type 0) where
  pub data Exits {IoError A : Type 0} : Outcome World (Failure IoError) A → Type 0 where
    exits : {a : A} {w : World} → Log done w.lines → Exits (ok a w)
    aborts : {w : World} {stage : Stage} → stage ≢ done → Log stage w.lines → Exits (panic w)

module _ ⦃R : Layout⦄ {IoError : Type 0} (w : World) where
  -- What `main` did with a second argument: `frames`, `client`, or any other, or none.
  pub data Ran : Option String → Ending IoError → Type 0 where
    ran_frames : {o : Ending IoError} → Exits (FramesLog w.lines) o → Ran (some "frames") o
    ran_client : {o : Ending IoError} → Exits (ClientLog w.lines) o → Ran (some "client") o
    ran_nothing :
        {cmd : Option String} → cmd ≢ some "frames" → cmd ≢ some "client" → Ran cmd (panic w)

other_command : (cmd name : String) → (cmd == name) ≡ false → some cmd ≢ some name
other_command cmd name e = ground (arith, eq_iff cmd name)

module _ ⦃R : Layout⦄ ⦃rpc : Rpc⦄ {IoError : Type 0} (files : Files IoError)
    (net : Network IoError) where
  expect_ok-Exits :
      {Log : Stage → List Printed → Type 0} (o : Ending IoError)
      → Stops Log o
      → Exits Log (expect_ok files net o)
  unfolding expect_ok
  expect_ok-Exits (ok a w) (finished log) = exits log
  expect_ok-Exits (err e w) (failed early log) = aborts early log
  expect_ok-Exits (panic w) (panicked early log) = aborts early log

  chosen-Ran :
      (cmd : String) (w : World) (frames client : Bool)
      → (cmd == "frames") ≡ frames
      → (cmd == "client") ≡ client
      → Ran w (some cmd) (
          expect_ok files net
            ((if frames then frames_main files else if client then client_main net else panic) w))
  unfolding expect_ok
  chosen-Ran cmd w true client e e' =
      subst (λ c. Ran w (some c) (expect_ok files net (frames_main files w)))
        (sym ((eq_iff cmd "frames").0 e))
        (ran_frames (expect_ok-Exits _ (frames_main-Stops files w)))
  chosen-Ran cmd w false true e e' =
      subst (λ c. Ran w (some c) (expect_ok files net (client_main net w)))
        (sym ((eq_iff cmd "client").0 e'))
        (ran_client (expect_ok-Exits _ (client_main-Stops net w)))
  chosen-Ran cmd w false false e e' =
      ran_nothing (other_command cmd "frames" e) (other_command cmd "client" e')

  -- With the second argument `frames` or `client`, `main` either returns with all lines of that
  -- command printed or panics at an earlier stage of its log; with another second argument, or none,
  -- it panics and leaves the world as it was.
  pub main-Ran : (args : List String) (w : World) → Ran w (get_elem? args 1) (main files net args w)
  unfolding main
  main-Ran [] w = ran_nothing (ground arith) (ground arith)
  main-Ran (program ∷ []) w = ran_nothing (ground arith) (ground arith)
  main-Ran (program ∷ cmd ∷ rest) w = chosen-Ran cmd w (cmd == "frames") (cmd == "client") refl refl
