-- ===== src/Go/Action.antt =====
-- A Go function that reads and writes outside state and returns (value, error): what it did before
-- an error stays done.
use qonto.Prelude.{String}
use qonto.Go.Errors.{Error, Result, ok, err, wrap}

abbrev pub Action : Type 0 → Type 0 → Type 0
Action S A = S → Result A × S

module _ {S A : Type 0} where
  abbrev pub pure : A → Action S A
  pure a s = (ok a, s)

  abbrev pub fail : Error → Action S A
  fail e s = (err e, s)

  -- `if err != nil { return fmt.Errorf("message: %w", err) }`
  abbrev pub wrapping : String → Action S A → Action S A
  wrapping message m s =
      let (r, s') = m s in elim r [ ok a ↦ (ok a, s') | err e ↦ (err (wrap message e), s') ]

module _ {S A B : Type 0} where
  infixl 5 ◌>>=◌ ◌>>◌
  abbrev pub ◌>>=◌ : Action S A → (A → Action S B) → Action S B
  ◌>>=◌ m f s = let (r, s') = m s in elim r [ ok a ↦ f a s' | err e ↦ (err e, s') ]

  abbrev pub ◌>>◌ : Action S A → Action S B → Action S B
  m >> n = m >>= λ _. n
