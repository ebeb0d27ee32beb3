-- ===== src/Main.antt =====
-- `main` of rust/src/main.rs.
pub mod World
pub mod Logs
pub mod Outcomes
pub mod Frames
pub mod Client
use Prim.Native.String.{String}
use text.Mathlib.Text.{◌==◌}
use capnproto_test.Base.{List, [], ◌∷◌, Outcome, ok, err, panic, if◌then◌else◌}
use capnproto_test.Layout.{Layout}
use capnproto_test.Layout.Rpc.{Rpc}
use World.{Ending, Files, Network, Run}
use Frames.{frames_main}
use Client.{client_main}

module _ ⦃R : Layout⦄ ⦃rpc : Rpc⦄ {IoError : Type 0} (files : Files IoError)
    (net : Network IoError) where
  -- `.expect("command failed")`
  unfoldable pub expect_ok : Ending IoError → Ending IoError
  expect_ok (ok a w) = ok a w
  expect_ok (err e w) = panic w
  expect_ok (panic w) = panic w

  -- The arguments begin with the name of the program. Without a second one `args[1]` panics.
  unfoldable pub main : List String → Run IoError (Unit {0})
  main [] w = panic w
  main (program ∷ []) w = panic w
  main (program ∷ cmd ∷ rest) w = expect_ok (
      (if cmd == "frames"
          then frames_main files
          else if cmd == "client"
          then client_main net
          else panic)
        w)
