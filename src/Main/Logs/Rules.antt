-- ===== src/Main/Logs/Rules.antt =====
-- A call of the crate or of the host prints nothing.
use capnproto_test.Base.{List, ◌≢◌, Outcome, ok, err, panic, Command, and_then}
use capnproto_test.Layout.{Layout}
use capnproto_test.Main.Logs.{Stage, done, Stops, failed, panicked}
use capnproto_test.Main.World.{World, Printed, Failure, capnp, io, Run, in_world, crate, host}

module _ ⦃R : Layout⦄ {IoError : Type 0} {Log : Stage → List Printed → Type 0} where
  pub Stops-in_world :
      {E A B : Type 0} (stage : Stage)
      → stage ≢ done
      → (f : E → Failure IoError) (w : World) (o : Outcome R.State E A) (k : A → Run IoError B)
      → Log stage w.lines
      → ((a : A) (s : R.State) → Stops Log (k a (record w { state = s })))
      → Stops Log (and_then (in_world f w o) k)
  Stops-in_world stage early f w (ok a s) k log next = next a s
  Stops-in_world stage early f w (err e s) k log next = failed early log
  Stops-in_world stage early f w (panic s) k log next = panicked early log

  module _ {A B : Type 0} {stage : Stage} (early : stage ≢ done) (w : World)
      (log : Log stage w.lines) where
    pub Stops-crate :
        (m : Command R.State R.Error A) (k : A → Run IoError B)
        → ((a : A) (s : R.State) → Stops Log (k a (record w { state = s })))
        → Stops Log (and_then (crate m w) k)
    unfolding crate
    Stops-crate m k next = Stops-in_world stage early capnp w (m w.state) k log next

    pub Stops-host :
        (m : Command R.State IoError A) (k : A → Run IoError B)
        → ((a : A) (s : R.State) → Stops Log (k a (record w { state = s })))
        → Stops Log (and_then (host m w) k)
    unfolding host
    Stops-host m k next = Stops-in_world stage early io w (m w.state) k log next
