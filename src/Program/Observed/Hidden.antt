-- ===== src/Program/Observed/Hidden.antt =====
-- A submission whose commit fails behind the status that it has set.
use mathlib.Core.Path.{subst}
use qonto.Prelude.{
  ℕ, suc, String, Bool, true, false, Bytes, ◌≡◌, refl, sym, ap, ◌∙◌, Option, none, some, List, [],
  ◌∷◌, ◌++◌, append_assoc, Bool-cases, inl, inr,
}
use qonto.Prelude.Int.{ℤ, pos, ltb_ℤ, leb_ℤ}
use qonto.Go.Errors.{Error, Result, ok, err, wrap}
use qonto.Go.Time.{Time}
use qonto.Go.Context.{Context, with_tx, with_phase}
use qonto.Model.Transfer.{Account, BulkTransferRequest, total_cents}
use qonto.Database.Engine.{Engine, Statement}
use qonto.Database.Traced.Metered.{traced_control-Grows}
use qonto.Platform.Instruments.{Attribute}
use qonto.Platform.Span.{SpanStatus, unset, ok_status}
use qonto.Platform.World.{Emission, span_ok, World}
use qonto.Program.Observed.{observed_body, control, observed_submit}
use qonto.Program.Observed.Calls.{repo, Sim-perform}
use qonto.Service.Interfaces.{Repository}
use qonto.Service.Submit.{Response}
use qonto.Service.Task.{Answer, perform}
use qonto.Service.Observed.{
  outcome, violation, emissions_of, Observed, done, stop, mark, call, debited_observed,
  resolved_observed, checked_observed, submit_observed, run_observed,
}
use qonto.Txn.{Exit, returned}
use qonto.Txn.Observed.Status.{opened, status_after, atomic_hides_failure}

-- No path of the task returns before it has recorded an outcome; `seen` says that one was.
abbrev IsMarked : {A : Type 0} → Bool → Observed A → Type 0
IsMarked seen (done a) = seen ≡ true
IsMarked seen (stop e) = Unit
IsMarked seen (mark (outcome _ _) t) = IsMarked true t
IsMarked seen (mark (violation _) t) = IsMarked seen t
IsMarked seen (call c k) = (a : Answer c) → IsMarked seen (k a)

module _ (req : BulkTransferRequest) where
  debited-IsMarked : (ctx : Context) (left : ℤ) → IsMarked false (debited_observed ctx req left)
  debited-IsMarked ctx left = elim (Bool-cases (leb_ℤ (pos 0) left)) [
    | inl fine ↦ rw fine (λ _. refl)
    | inr broken ↦ rw broken tt
  ]

  resolved-IsMarked :
      (ctx : Context) (found : Option Account) → IsMarked false (resolved_observed ctx req found)
  resolved-IsMarked ctx none = λ _. refl
  resolved-IsMarked ctx (some account) =
      elim (Bool-cases (ltb_ℤ account.balance_cents (total_cents req))) [
        | inl short ↦ rw short (λ _. refl)
        | inr enough ↦ rw enough (λ _ _. debited-IsMarked (with_phase ctx "persist_batch"))
      ]

  checked-IsMarked :
      (ctx : Context) (status : Option ℤ) → IsMarked false (checked_observed ctx req status)
  checked-IsMarked ctx (some status) = refl
  checked-IsMarked ctx none = resolved-IsMarked (with_phase ctx "resolve_account")

  submit-IsMarked : (ctx : Context) → IsMarked false (submit_observed req ctx)
  submit-IsMarked ctx = λ _. checked-IsMarked (with_phase ctx "check_idempotency")

unwrapped : {A : Type 0} {x y : Result A} → ◌≡◌ {A = Exit A} (returned x) (returned y) → x ≡ y
unwrapped h = cc

-- The status `Ok` was set on a span.
abbrev HasOk : ℕ → List Emission → Type 0
HasOk span l =
    (xs : List Emission) × (ys : List Emission) × (attrs : List Attribute) × (l
      ≡ xs ++ (span_ok span attrs ∷ ys))

HasOk-append : (span : ℕ) (l m : List Emission) → HasOk span l → HasOk span (l ++ m)
HasOk-append span l m (xs, ys, attrs, p) =
    (xs, ys ++ m, attrs, ap (λ k. k ++ m) p ∙ append_assoc xs (span_ok span attrs ∷ ys) m)

module _ (clock : ℕ → Time) (is_recording : ℕ → Bool) (sql_text : Statement → Bytes)
    (args : Statement → Option Bytes) (e : Engine) where
  abbrev observed : ℕ → Repository (World e.State)
  observed span = repo clock is_recording sql_text args span e

  recorded :
      {A : Type 0} (span : ℕ) (t : Observed A) (seen : Bool) (w : World e.State)
      → IsMarked seen t
      → (seen ≡ true → HasOk span w.emitted)
      → (a : A) → (run_observed (observed span) span t w).0 ≡ ok a
      → HasOk span (run_observed (observed span) span t w).1.emitted
  unfolding emissions_of
  recorded span (done b) seen w m h a r = h m
  recorded span (stop x) seen w m h a r = cc
  recorded span (mark (outcome name status) t) seen w m h a r =
      recorded span t true _ m (λ _. (w.emitted, [], _, refl)) a r
  recorded span (mark (violation x) t) seen w m h a r =
      recorded span t seen _ m (λ s. HasOk-append span w.emitted _ (h s)) a r
  recorded {A} span (call c k) seen w m h a r =
      let (same, left, ((xs, metered, log), sent)) =
        Sim-perform clock is_recording sql_text args span e c w in
      on (λ b w' h'. recorded span (k b) seen w' (m b) h' a) (perform (observed span) c w)
        (λ s. subst (HasOk span) (sym log) (HasOk-append span w.emitted xs (h s))) r
    where
      Recorded : Answer c → Type 0
      Recorded b =
          (w' : World e.State)
          → (seen ≡ true → HasOk span w'.emitted)
          → (run_observed (observed span) span (k b) w').0 ≡ ok a
          → HasOk span (run_observed (observed span) span (k b) w').1.emitted

      on :
          ((b : Answer c) → Recorded b)
          → (x : Result (Answer c) × World e.State) → (seen ≡ true → HasOk span x.1.emitted)
          → (let y : Result A × World e.State = elim x.0 [
            | ok b ↦ run_observed (observed span) span (k b) x.1
            | err z ↦ (err z, x.1)
          ] in
              y).0
            ≡ ok a
          → HasOk span
              (let y : Result A × World e.State = elim x.0 [
                | ok b ↦ run_observed (observed span) span (k b) x.1
                | err z ↦ (err z, x.1)
              ] in
                y).1.emitted
      on rest (ok b, w') h' q = rest b w' h' q
      on rest (err z, w') h' q = cc

  -- Where a submission's transaction was begun, its function returned nil, and the commit fails, the
  -- caller is given an error and the status of the transaction's span is `Ok`, if "Ok" is final.
  pub commit_failure_hidden :
      (set_status : SpanStatus → SpanStatus → SpanStatus) (error_text : Error → String)
      → ((s : SpanStatus) → set_status ok_status s ≡ ok_status)
      → ((s : SpanStatus) → set_status s ok_status ≡ ok_status)
      → (parent : ℕ) (ctx : Context) (req : BulkTransferRequest) (w : World e.State) (a : Response)
        (x : Error)
      → let begun =
          control clock is_recording sql_text args e ctx
            (suc w.spans)
            "begin"
            e.begin
            (opened clock parent w) in
        let y =
          observed_body clock is_recording sql_text args e req
            (suc w.spans)
            (with_tx ctx)
            begun.1 in
        begun.0 ≡ none
        → y.0 ≡ returned (ok a)
        → (control clock is_recording sql_text args e ctx (suc w.spans) "commit" e.commit y.1).0
          ≡ some x
        → let (r, w') = observed_submit clock is_recording sql_text args e parent ctx req w in
          (r ≡ returned (err (wrap "commit transaction" x)))
          × (status_after set_status error_text (suc w.spans) unset w'.emitted ≡ ok_status)
  unfolding observed_submit
  commit_failure_hidden set_status error_text final set parent ctx req w a x b r f =
      let span = suc w.spans in
      let begin = control clock is_recording sql_text args e ctx span "begin" e.begin in
      let commit = control clock is_recording sql_text args e ctx span "commit" e.commit in
      let rollback = control clock is_recording sql_text args e ctx span "rollback" e.rollback in
      let body = observed_body clock is_recording sql_text args e req in
      let w3 = (begin (opened clock parent w)).1 in
      let w4 = (body span (with_tx ctx) w3).1 in
      let (xs, ys, attrs, log) =
        recorded span (submit_observed req (with_tx ctx)) false w3
          (submit-IsMarked req (with_tx ctx)) (λ q. cc) a (unwrapped r) in
      let (zs, metered, more) =
        traced_control-Grows clock is_recording sql_text args ctx span e "commit" e.commit w4 in
      atomic_hides_failure set_status error_text final set clock begin commit rollback parent ctx
        body w w4 a xs ys attrs x b (λ i. (r i, w4)) log f (zs, more)
