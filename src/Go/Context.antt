-- ===== src/Go/Context.antt =====
-- The values that the program puts into a context.Context: the open transaction (pkg/txn/txn.go)
-- and the phase (pkg/observability/phase.go).
use qonto.Prelude.{String, Bool, true, Option, some}

pub record Context : Type 0 where
  pub tx : Bool
  pub phase : Option String

-- `context.WithValue(ctx, txKey{}, tx)`
abbrev pub with_tx : Context → Context
with_tx ctx = record ctx { tx = true }

-- `FromContext`: whether a transaction is stashed
abbrev pub from_context : Context → Bool
from_context ctx = ctx.tx

abbrev pub with_phase : Context → String → Context
with_phase ctx phase = record ctx { phase = some phase }

abbrev pub phase_from_context : Context → Option String
phase_from_context ctx = ctx.phase
