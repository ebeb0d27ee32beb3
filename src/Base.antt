-- ===== src/Base.antt =====
-- The names that the other modules share: the libraries', passed on, and the outcomes of commands.
pub mod Commands
pub mod Lists
pub use Commands.{Outcome, ok, err, panic, final, and_then, Command, ◌>>=◌, ◌>>◌}
pub use Commands.{Outcome-cases, Result, attempt, question, InSchema, known, not_in_schema}
pub use Lists.*
pub use Prim.Native.Nat.{ℕ, zero, suc, ◌+◌, ◌-◌, ◌*◌, ◌/◌, ◌%◌, ◌^◌, ◌≤◌, ◌<◌}
pub use mathlib.Core.Path.{◌≡◌, refl, sym, ap, ◌∙◌}
pub use mathlib.Core.Logic.{◌≢◌, ◌↔◌, ◌⊎◌, inl, inr}
pub use mathlib.Core.Bool.{Bool, true, false, not, ◌&&◌, ◌||◌}
pub use mathlib.Core.Option.{Option, none, some}
pub use mathlib.Core.List.{List, [], ◌∷◌, ◌++◌, map}
pub use native.Mathlib.Omega.{arith}
