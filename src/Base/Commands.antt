-- ===== src/Base/Commands.antt =====
-- How a Rust call ends: it returns `Ok`, it returns `Err`, or it panics. Each carries the state
-- that the call leaves behind.
use Prim.Native.Nat.{ℕ}
use mathlib.Core.Path.{◌≡◌, refl}
use mathlib.Core.Logic.{◌⊎◌, inl, inr}

pub data Outcome (S E A : Type 0) : Type 0 where
  ok : A → S → Outcome S E A
  err : E → S → Outcome S E A
  panic : S → Outcome S E A

module _ {S E A : Type 0} where
  -- The state after the call.
  abbrev pub final : Outcome S E A → S
  final (ok a s) = s
  final (err e s) = s
  final (panic s) = s

  -- `?`: go on with the value, or hand the error to the caller.
  abbrev pub and_then : {B : Type 0} → Outcome S E A → (A → S → Outcome S E B) → Outcome S E B
  and_then (ok a s) k = k a s
  and_then (err e s) k = err e s
  and_then (panic s) k = panic s

abbrev pub Command : (S E A : Type 0) → Type 0
Command S E A = S → Outcome S E A

module _ {S E A B : Type 0} where
  infixl 5 ◌>>=◌ ◌>>◌
  abbrev pub ◌>>=◌ : Command S E A → (A → Command S E B) → Command S E B
  m >>= k = λ s. and_then (m s) k

  abbrev pub ◌>>◌ : Command S E A → Command S E B → Command S E B
  m >> n = m >>= λ _. n

-- A `Result` that the code keeps as a value, before any `?`.
pub data Result (E A : Type 0) : Type 0 where
  ok : A → Result E A
  err : E → Result E A

module _ {S E A : Type 0} where
  -- The call, with its `Result` as the value.
  abbrev pub attempt : Command S E A → Command S E (Result E A)
  attempt m s = elim (m s) [
    | Outcome.ok a t ↦ Outcome.ok (Result.ok a) t
    | Outcome.err e t ↦ Outcome.ok (Result.err e) t
    | Outcome.panic t ↦ Outcome.panic t
  ]

  -- `?` on such a value.
  abbrev pub question : Result E A → Command S E A
  question (Result.ok a) = Outcome.ok a
  question (Result.err e) = Outcome.err e

-- `Result<A, NotInSchema>`: a value that the schema knows, or the number that it does not know.
pub data InSchema (A : Type 0) : Type 0 where
  known : A → InSchema A
  not_in_schema : ℕ → InSchema A

pub Outcome-cases :
    {S E A : Type 0} (o : Outcome S E A)
    → ((a : A) × (s : S) × (o ≡ Outcome.ok a s))
      ⊎ (((e : E) × (s : S) × (o ≡ Outcome.err e s)) ⊎ ((s : S) × (o ≡ Outcome.panic s)))
Outcome-cases (Outcome.ok a s) = inl (a, s, refl)
Outcome-cases (Outcome.err e s) = inr (inl (e, s, refl))
Outcome-cases (Outcome.panic s) = inr (inr (s, refl))
