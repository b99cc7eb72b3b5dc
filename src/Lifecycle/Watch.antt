-- ===== src/Lifecycle/Watch.antt =====
-- What a run of the process may do, and when: every call is watched.
use text.Mathlib.Text.{◌==◌}
use qonto.Prelude.{
  ◌⊎◌, ◌≡◌, Bool, true, false, Option, none, some, List, [], ◌∷◌, ◌++◌, ◌&&◌, ◌||◌, if◌then◌else◌,
}
use qonto.Prelude.Int.{ℤ, pos}
use qonto.Go.Errors.{Error, Result, ok, err}
use qonto.Lifecycle.Flow.{
  Signal, Attempt, merge_resource, create_exporter, force_flush, shut_down, parse_dsn, create_pool,
  ping, register_pool_metrics, open_migrate, migrate_up, run_seed, Deed, set_noop_provider,
  new_provider, set_provider, set_text_map_propagator, set_default_logger, close_migrate,
  close_pool, log_info, log_error, exit, Flow, done, does, tries, serves,
}

pub data PoolState : Type 0 where
  unopened opened closed : PoolState

pub record Watch : Type 0 where
  pub pool : PoolState
  pub migrating : Bool  -- golang-migrate holds its own connections
  pub current : Bool  -- the migrations are applied
  pub served : Bool
  pub built : List Signal  -- the providers that export
  pub flushed : List Signal
  pub stopped : List Signal
  pub reported : Bool  -- an error of the shutdown was logged
  pub exit_code : ℤ

abbrev pub start : Watch
start = record {
  pool = unopened;
  migrating = false;
  current = false;
  served = false;
  built = [];
  flushed = [];
  stopped = [];
  reported = false;
  exit_code = pos 0;
}

abbrev pub is_open : PoolState → Bool
is_open opened = true
is_open _ = false

abbrev pub is_unopened : PoolState → Bool
is_unopened unopened = true
is_unopened _ = false

abbrev pub not : Bool → Bool
not true = false
not false = true

abbrev pub guard : Bool → Watch → Option Watch
guard true w = some w
guard false w = none

module _ (is_no_change : Error → Bool) where
  -- What a call changes where it has returned `r`; `none` if it may not be made.
  abbrev pub watch_try : Attempt → Result (Unit {0}) → Watch → Option Watch
  watch_try (merge_resource _) r w = some w
  watch_try (create_exporter _ _ _) r w = some w
  watch_try (force_flush s) (ok _) w = guard w.served (record w { flushed = w.flushed ++ (s ∷ []) })
  watch_try (force_flush s) (err _) w = guard w.served w
  watch_try (shut_down s) (ok _) w = guard w.served (record w { stopped = w.stopped ++ (s ∷ []) })
  watch_try (shut_down s) (err _) w = guard w.served w
  watch_try (parse_dsn _) r w = some w
  watch_try (create_pool _) (ok _) w = guard (is_unopened w.pool) (record w { pool = opened })
  watch_try (create_pool _) (err _) w = guard (is_unopened w.pool) w
  watch_try ping r w = guard (is_open w.pool) w
  watch_try register_pool_metrics r w = guard (is_open w.pool) w
  watch_try (open_migrate _ _) (ok _) w = guard (not w.migrating) (record w { migrating = true })
  watch_try (open_migrate _ _) (err _) w = guard (not w.migrating) w
  watch_try migrate_up (ok _) w = guard w.migrating (record w { current = true })
  watch_try migrate_up (err e) w =
      guard w.migrating (if is_no_change e then record w { current = true } else w)
  watch_try run_seed r w = guard (is_open w.pool && w.current) w

  -- `os.Exit` runs no deferred call.
  abbrev pub watch_do : Deed → Watch → Option Watch
  watch_do (new_provider s _) w = some (record w { built = w.built ++ (s ∷ []) })
  watch_do close_migrate w = guard w.migrating (record w { migrating = false })
  watch_do close_pool w = guard (is_open w.pool) (record w { pool = closed })
  watch_do (log_error m) w = some (record w { reported = m == "shutdown telemetry" || w.reported })
  watch_do (exit n) w = guard (not (is_open w.pool) && not w.migrating) (record w { exit_code = n })
  watch_do (set_noop_provider _) w = some w
  watch_do (set_provider _) w = some w
  watch_do set_text_map_propagator w = some w
  watch_do set_default_logger w = some w
  watch_do (log_info _) w = some w

  abbrev pub watch_serve : Watch → Option Watch
  watch_serve w =
      guard (is_open w.pool && (w.current && (not w.migrating && not w.served)))
        (record w { served = true })

  abbrev pub Allowed : Option Watch → (Watch → Type 0) → Type 0
  Allowed none P = ⊥
  Allowed (some w) P = P w

  -- On every path of a run each call is allowed, and the end is as `Q` says.
  unfoldable pub Obeys : {A : Type 0} → (A → Watch → Type 0) → Flow A → Watch → Type 0
  Obeys Q (done a) w = Q a w
  Obeys Q (does d m) w = Allowed (watch_do d w) (Obeys Q m)
  Obeys Q (tries c k) w = (r : Result (Unit {0})) → Allowed (watch_try c r w) (Obeys Q (k r))
  Obeys Q (serves k) w =
      (r : Result (Unit {0}))
      → (cancelled : Bool) → Allowed (watch_serve w) (Obeys Q (k r cancelled))

-- Nothing is left open, the exit code is 0 only if requests were served, and then the telemetry was
-- flushed and stopped, or the failure to do so was reported.
pub record Ended (w : Watch) : Type 0 where
  pub pool_closed : is_open w.pool ≡ false
  pub migrations_closed : w.migrating ≡ false
  pub served_if_zero : w.exit_code ≡ pos 0 → w.served ≡ true
  pub stopped_if_served :
      w.served ≡ true → (w.reported ≡ true) ⊎ ((w.flushed ≡ w.built) × (w.stopped ≡ w.built))
