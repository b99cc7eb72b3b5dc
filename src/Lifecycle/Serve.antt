-- ===== src/Lifecycle/Serve.antt =====
-- `RunWithContext` of pkg/server/server.go: the goroutine that calls it and the one that it starts,
-- on an http.Server as net/http documents it: `Shutdown` makes `ListenAndServe` return
-- ErrServerClosed at once, and then waits for the requests in flight or for its context.
use qonto.Prelude.{ℕ, zero, suc, ◌+◌, ◌≤◌, ◌≡◌, refl, ◌⊎◌, inl, inr, Bool, true, false, arith}
use qonto.Go.Errors.{Error, Result, ok, err, wrap}

-- What `ListenAndServe` returns: http.ErrServerClosed, or another error.
pub data ListenError : Type 0 where
  server_closed : ListenError
  failed : Error → ListenError

-- The calling goroutine: in `ListenAndServe`, before `close(shutdownDone)`, or after the return.
pub data Caller : Type 0 where
  listening : Caller
  closing : ListenError → Caller
  returned : Result (Unit {0}) → Caller

-- The goroutine that it starts: in `select`, in `Shutdown`, or over.
pub data Waiter : Type 0 where
  selecting : Waiter
  shutting_down : Waiter
  over : Waiter

-- Both goroutines; whether the context is cancelled, `shutdownDone` is closed and `Shutdown` was
-- called; and the requests in flight.
pub data Serving : Type 0 where
  serving : Caller → Waiter → (cancelled done_closed shut : Bool) → ℕ → Serving

unfoldable pub run_result : ListenError → Result (Unit {0})
run_result server_closed = ok tt
run_result (failed e) = err (wrap "http server" e)

-- A step of one of the goroutines.
pub data Own : Serving → Serving → Type 0 where
  listen_closed :
      {w : Waiter} {c d : Bool} {n : ℕ}
      → Own (serving listening w c d true n) (serving (closing server_closed) w c d true n)
  close_done :
      {e : ListenError} {w : Waiter} {c d s : Bool} {n : ℕ}
      → Own (serving (closing e) w c d s n) (serving (returned (run_result e)) w c true s n)
  select_cancelled :
      {m : Caller} {d s : Bool} {n : ℕ}
      → Own (serving m selecting true d s n) (serving m shutting_down true d true n)
  select_done :
      {m : Caller} {c s : Bool} {n : ℕ}
      → Own (serving m selecting c true s n) (serving m over c true s n)
  drained :
      {m : Caller} {c d s : Bool} → Own (serving m shutting_down c d s 0) (serving m over c d s 0)
  timed_out :
      {m : Caller} {c d s : Bool} {n : ℕ}
      → Own (serving m shutting_down c d s n) (serving m over c d s n)

-- A signal, an error of the listener, the start and the end of a request.
pub data World : Serving → Serving → Type 0 where
  listen_fails :
      {w : Waiter} {c d : Bool} {n : ℕ} (e : Error)
      → World (serving listening w c d false n) (serving (closing (failed e)) w c d false n)
  cancel :
      {m : Caller} {w : Waiter} {c d s : Bool} {n : ℕ}
      → World (serving m w c d s n) (serving m w true d s n)
  accept :
      {w : Waiter} {c d : Bool} {n : ℕ}
      → World (serving listening w c d false n) (serving listening w c d false (suc n))
  answer :
      {m : Caller} {w : Waiter} {c d s : Bool} {n : ℕ}
      → World (serving m w c d s (suc n)) (serving m w c d s n)

-- So many steps of the goroutines, and any of the world's between them.
pub data Runs (s : Serving) : ℕ → Serving → Type 0 where
  stay : Runs s 0 s
  own : {n : ℕ} {s1 s2 : Serving} → Runs s n s1 → Own s1 s2 → Runs s (suc n) s2
  world : {n : ℕ} {s1 s2 : Serving} → Runs s n s1 → World s1 s2 → Runs s n s2

abbrev pub launched : Serving
launched = serving listening selecting false false false 0

abbrev pub IsOver : Serving → Type 0
IsOver (serving m w _ _ _ _) = ((r : Result (Unit {0})) × m ≡ returned r) × (w ≡ over)

abbrev pub is_cancelled : Serving → Bool
is_cancelled (serving _ _ c _ _ _) = c

abbrev caller_left : Caller → ℕ
caller_left listening = 2
caller_left (closing _) = 1
caller_left (returned _) = 0

abbrev waiter_left : Waiter → ℕ
waiter_left selecting = 2
waiter_left shutting_down = 1
waiter_left over = 0

abbrev steps_left : Serving → ℕ
steps_left (serving m w _ _ _ _) = caller_left m + waiter_left w

abbrev has_returned : Caller → Bool
has_returned (returned _) = true
has_returned _ = false

-- `shutdownDone` is closed by the return, and the other goroutine leaves its `select` only for a
-- `Shutdown` or for that.
abbrev Linked : Serving → Type 0
Linked (serving m w c d s n) =
    (d ≡ true → has_returned m ≡ true) × ((w ≡ selecting) ⊎ (s ≡ true) ⊎ (d ≡ true))

Own-Linked : {s s' : Serving} → Own s s' → Linked s → Linked s'
Own-Linked listen_closed (a, b) = (λ e. cc (a e), b)
Own-Linked close_done (a, b) = (λ e. refl, inr (inr refl))
Own-Linked select_cancelled (a, b) = (a, inr (inl refl))
Own-Linked select_done (a, b) = (a, inr (inr refl))
Own-Linked drained (a, inl b) = cc
Own-Linked drained (a, inr b) = (a, inr b)
Own-Linked timed_out (a, inl b) = cc
Own-Linked timed_out (a, inr b) = (a, inr b)

World-Linked : {s s' : Serving} → World s s' → Linked s → Linked s'
World-Linked cancel h = h
World-Linked (listen_fails x) (a, b) = (λ e. cc (a e), b)
World-Linked accept h = h
World-Linked answer h = h

Runs-Linked : {s : Serving} {n : ℕ} {s' : Serving} → Runs s n s' → Linked s → Linked s'
Runs-Linked stay h = h
Runs-Linked (own before step) h = Own-Linked step (Runs-Linked before h)
Runs-Linked (world before step) h = World-Linked step (Runs-Linked before h)

steps_left-Own : {s s' : Serving} → Own s s' → suc (steps_left s') ≤ steps_left s
steps_left-Own listen_closed = omega arith
steps_left-Own close_done = omega arith
steps_left-Own select_cancelled = omega arith
steps_left-Own select_done = omega arith
steps_left-Own drained = omega arith
steps_left-Own timed_out = omega arith

steps_left-World : {s s' : Serving} → World s s' → steps_left s' ≤ steps_left s
steps_left-World (listen_fails x) = omega arith
steps_left-World cancel = omega arith
steps_left-World accept = omega arith
steps_left-World answer = omega arith

steps_left-Runs :
    {s : Serving} {n : ℕ} {s' : Serving} → Runs s n s' → n + steps_left s' ≤ steps_left s
steps_left-Runs stay = omega arith
steps_left-Runs (own before step) =
    let h = steps_left-Runs before in let d = steps_left-Own step in omega arith
steps_left-Runs (world before step) =
    let h = steps_left-Runs before in let d = steps_left-World step in omega arith

Own-cancelled : {s s' : Serving} → Own s s' → is_cancelled s ≡ true → is_cancelled s' ≡ true
Own-cancelled listen_closed h = h
Own-cancelled close_done h = h
Own-cancelled select_cancelled h = h
Own-cancelled select_done h = h
Own-cancelled drained h = h
Own-cancelled timed_out h = h

World-cancelled : {s s' : Serving} → World s s' → is_cancelled s ≡ true → is_cancelled s' ≡ true
World-cancelled (listen_fails x) h = h
World-cancelled cancel h = refl
World-cancelled accept h = h
World-cancelled answer h = h

Runs-cancelled :
    {s : Serving} {n : ℕ} {s' : Serving}
    → Runs s n s'
    → is_cancelled s ≡ true
    → is_cancelled s' ≡ true
Runs-cancelled stay h = h
Runs-cancelled (own before step) h = Own-cancelled step (Runs-cancelled before h)
Runs-cancelled (world before step) h = World-cancelled step (Runs-cancelled before h)

-- A cancelled run that is not over goes on.
goes_on : (s : Serving) → Linked s → is_cancelled s ≡ true → IsOver s ⊎ ((s' : Serving) × Own s s')
goes_on (serving m selecting true d s n) h e = inr (_, select_cancelled)
goes_on (serving m selecting false d s n) h e = cc
goes_on (serving m shutting_down c d s n) h e = inr (_, timed_out)
goes_on (serving (closing x) over c d s n) h e = inr (_, close_done)
goes_on (serving (returned r) over c d s n) h e = inl ((r, refl), refl)
goes_on (serving listening over c d true n) h e = inr (_, listen_closed)
goes_on (serving listening over c d false n) (a, inl b) e = cc
goes_on (serving listening over c d false n) (a, inr (inl b)) e = cc
goes_on (serving listening over c d false n) (a, inr (inr b)) e = cc (a b)

-- Once the context is cancelled, however requests come and go and whether the listener fails, the
-- two goroutines make at most four more steps, and until `RunWithContext` has returned and the
-- goroutine that it started is over, one of them can make a step.
pub shutdown_ends :
    {k n : ℕ} {s s' : Serving}
    → Runs launched k s
    → is_cancelled s ≡ true
    → Runs s n s'
    → (n ≤ 4) × (IsOver s' ⊎ ((s'' : Serving) × Own s' s''))
shutdown_ends {k} {n} {s} {s'} before h after =
    let linked = Runs-Linked before ((λ e. cc), inl refl) in
    let first = steps_left-Runs before in
    let rest = steps_left-Runs after in
    (omega arith, goes_on s' (Runs-Linked after linked) (Runs-cancelled after h))

requests_come : (n : ℕ) → Runs launched 0 (serving listening selecting false false false n)
requests_come zero = stay
requests_come (suc n) = world (requests_come n) accept

-- However many requests are in flight when the context is cancelled, `RunWithContext` may return
-- nil with all of them still in flight: it does not wait for `Shutdown` to return.
pub returns_before_drained :
    (n : ℕ)
    → Runs launched 3 (serving (returned (run_result server_closed)) shutting_down true true true n)
returns_before_drained n =
    own (own (own (world (requests_come n) cancel) select_cancelled) listen_closed) close_done
