-- ===== src/Lifecycle/Flow.antt =====
-- What the process asks of its libraries, call by call, where each fallible call may fail.
use qonto.Prelude.{String, Bool, Option}
use qonto.Prelude.Int.{ℤ}
use qonto.Go.Errors.{Result, ok, err, wrap}

-- What OpenTelemetry exports.
pub data Signal : Type 0 where
  traces metrics logs : Signal

-- A call that returns an error value.
pub data Attempt : Type 0 where
  merge_resource : String → Attempt
  create_exporter : Signal → String → Bool → Attempt  -- the endpoint, and whether it is insecure
  force_flush : Signal → Attempt
  shut_down : Signal → Attempt
  parse_dsn : String → Attempt
  create_pool : ℤ → Attempt  -- with at most so many connections
  ping : Attempt
  register_pool_metrics : Attempt
  open_migrate : String → String → Attempt
  migrate_up : Attempt
  run_seed : Attempt

-- A call that does not.
pub data Deed : Type 0 where
  set_noop_provider : Signal → Deed
  new_provider : Signal → Option ℤ → Deed  -- with the interval of the metrics
  set_provider : Signal → Deed
  set_text_map_propagator : Deed
  set_default_logger : Deed
  close_migrate : Deed
  close_pool : Deed
  log_info : String → Deed
  log_error : String → Deed
  exit : ℤ → Deed

-- The rest of a run; `serves` is `RunWithContext`, that returns an error or nil, with whether a
-- signal has come.
pub data Flow (A : Type 0) : Type 0 where
  done : A → Flow A
  does : Deed → Flow A → Flow A
  tries : Attempt → (Result (Unit {0}) → Flow A) → Flow A
  serves : (Result (Unit {0}) → Bool → Flow A) → Flow A

module _ {A B : Type 0} where
  unfoldable pub bind : Flow A → (A → Flow B) → Flow B
  bind (done a) f = f a
  bind (does d m) f = does d (bind m f)
  bind (tries c k) f = tries c (λ r. bind (k r) f)
  bind (serves k) f = serves (λ r cancelled. bind (k r cancelled) f)

  abbrev pub go_on : (A → Flow (Result B)) → Result A → Flow (Result B)
  go_on f (ok a) = f a
  go_on f (err e) = done (err e)

module _ {A B : Type 0} where
  infixl 5 ◌>>=◌
  -- `x, err := m; if err != nil { return err }`
  unfoldable pub ◌>>=◌ : Flow (Result A) → (A → Flow (Result B)) → Flow (Result B)
  unfolding bind
  m >>= f = bind m (go_on f)

-- `fmt.Errorf("message: %w", err)`
abbrev pub wrapped {ℓ} : {A : Type ℓ} → String → Result A → Result A
wrapped message (ok a) = ok a
wrapped message (err e) = err (wrap message e)

-- A call whose error is wrapped.
abbrev pub attempt : String → Attempt → Flow (Result (Unit {0}))
attempt message c = tries c (λ r. done (wrapped message r))

unfoldable pub wrapping : {A : Type 0} → String → Flow (Result A) → Flow (Result A)
unfolding bind
wrapping message m = bind m (λ r. done (wrapped message r))

-- `defer d`, around the rest of the function
unfoldable pub deferring : {A : Type 0} → Deed → Flow A → Flow A
unfolding bind
deferring d m = bind m (λ a. does d (done a))
