-- ===== src/Main/Client/Output.antt =====
-- What `client_main` prints, on every branch.
use capnproto_test.Base.{List, [], ◌∷◌, ◌++◌, none, some, Outcome, Option, and_then, ◌≢◌, arith}
use capnproto_test.Layout.{Layout, Owned}
use capnproto_test.Layout.Rpc.{Rpc}
use capnproto_test.Main.World.{Network, World, Printed, Run, encountered_error, capnp}
use capnproto_test.Main.Logs.{
  Stage, idle, asked, answered, done, ClientLog, nothing_yet, connect, ended, response, ended_later,
  value, finish, Stops, finished,
}
use capnproto_test.Main.Logs.Rules.{Stops-crate, Stops-host, Stops-in_world}
use capnproto_test.Main.Client.{report, block_on, client_main}

idle-ne_done : idle ≢ done
idle-ne_done = ground arith

asked-ne_done : asked ≢ done
asked-ne_done = ground arith

answered-ne_done : answered ≢ done
answered-ne_done = ground arith

module _ ⦃R : Layout⦄ ⦃rpc : Rpc⦄ {IoError : Type 0} (net : Network IoError)
    {before : List Printed} where
  -- One more line may come while a request is awaited.
  report-Stops :
      {A B : Type 0} {stage : Stage}
      → stage ≢ done
      → (w : World) → ClientLog before stage w.lines
      → ((e : R.Error) → ClientLog before stage (w.lines ++ encountered_error e ∷ []))
      → (ended : Option R.Error) (response : Outcome R.State R.Error B) (k : B → Run IoError A)
      → ((a : B) (w' : World) → ClientLog before stage w'.lines → Stops (ClientLog before) (k a w'))
      → Stops (ClientLog before) (and_then (report net ended response w) k)
  unfolding report
  report-Stops early w log more none answer k next =
      Stops-in_world _ early capnp w answer k log (λ a s. next a _ log)
  report-Stops early w log more (some e) answer k next =
      Stops-in_world _ early capnp (record w { lines = w.lines ++ encountered_error e ∷ [] }) answer
        k (more e) (λ a s. next a _ (more e))

  block_on-Stops :
      {A : Type 0} {p q : Owned} {stage : Stage}
      → stage ≢ done
      → (w : World) → ClientLog before stage w.lines
      → ((e : R.Error) → ClientLog before stage (w.lines ++ encountered_error e ∷ []))
      → (runtime : net.Runtime) (request : rpc.Request p q) (k : net.Response q → Run IoError A)
      → ((a : net.Response q) (w' : World)
          → ClientLog before stage w'.lines
          → Stops (ClientLog before) (k a w'))
      → Stops (ClientLog before) (and_then (block_on net runtime request w) k)
  unfolding block_on
  block_on-Stops early w log more runtime request k next = report-Stops early w log more _ _ k next

module _ ⦃R : Layout⦄ ⦃rpc : Rpc⦄ {IoError : Type 0} (net : Network IoError) (w : World) where
  -- `client_main` prints its lines in the order of its steps and returns `Ok` only after the last of
  -- them; it stops by an error or a panic only before that. Besides, it prints only errors by which
  -- the RPC system ends, after the line on connecting and before the value.
  pub client_main-Stops : Stops (ClientLog w.lines) (client_main net w)
  unfolding client_main
  client_main-Stops = Stops-host idle-ne_done w nothing_yet _ _ λ runtime s.
      let log = connect _ nothing_yet in
      Stops-host asked-ne_done _ log _ _ λ addr s. Stops-host asked-ne_done _ log _ _ λ tcp s.
        Stops-host asked-ne_done _ log _ _ λ unit s.
          block_on-Stops net asked-ne_done _ log (λ e. ended e log) _ _ _
            λ r w' log.
              let log = response log in
              Stops-crate answered-ne_done _ log _ _ λ results s.
                Stops-crate answered-ne_done _ log _ _ λ v s.
                  block_on-Stops net answered-ne_done _ log (λ e. ended_later e log) _ _ _
                    λ r w' log.
                      Stops-crate answered-ne_done _ log _ _
                        λ results s. finished (finish (value _ log))
