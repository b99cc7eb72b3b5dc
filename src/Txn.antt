-- ===== src/Txn.antt =====
-- pkg/txn/txn.go: one function inside one transaction.
pub mod Laws
pub mod Observed
use qonto.Prelude.{String, Option, none, some}
use qonto.Go.Errors.{Error, Result, ok, err, wrap}
use qonto.Go.Action.{Action}
use qonto.Go.Context.{Context, with_tx}
use qonto.Database.Engine.{Engine}

-- How a call of `fn` ends.
pub data Exit (A : Type 0) : Type 0 where
  returned : Result A → Exit A
  panicked : String → Exit A

module _ (e : Engine) {A : Type 0} where
  -- The deferred function, where `fn` has returned: roll back on an error, else commit.
  unfoldable pub finish : Result A → e.State → Result A × e.State
  finish (err x) s = (err x, (e.rollback s).1)
  finish (ok a) s =
      let (failure, s') = e.commit s in
      elim failure [ none ↦ (ok a, s') | some x ↦ (err (wrap "commit transaction" x), s') ]

  -- `Atomic`, where `fn` does not panic. The value of `fn` is what it leaves in a variable of the
  -- caller, who reads that variable only if the error is nil.
  unfoldable pub atomic : Context → (Context → Action e.State A) → Action e.State A
  unfolding finish
  atomic ctx fn s =
      let (failure, s1) = e.begin s in
      elim failure [
        | some x ↦ (err (wrap "begin transaction" x), s1)
        | none ↦ let (r, s2) = fn (with_tx ctx) s1 in finish r s2
      ]

  unfoldable pub finish_exit : Exit A → e.State → Exit A × e.State
  unfolding finish
  finish_exit (panicked p) s = (panicked p, (e.rollback s).1)
  finish_exit (returned r) s = let (r', s') = finish r s in (returned r', s')

  -- `Atomic` in full: a panic of `fn` is raised again after a rollback.
  unfoldable pub atomic_exit :
      Context → (Context → e.State → Exit A × e.State) → e.State → Exit A × e.State
  unfolding finish_exit
  atomic_exit ctx fn s =
      let (failure, s1) = e.begin s in
      elim failure [
        | some x ↦ (returned (err (wrap "begin transaction" x)), s1)
        | none ↦ let (r, s2) = fn (with_tx ctx) s1 in finish_exit r s2
      ]
