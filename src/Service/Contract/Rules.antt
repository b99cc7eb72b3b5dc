-- ===== src/Service/Contract/Rules.antt =====
-- Rules for the steps of a transaction, one for each way to join them.
use qonto.Prelude.{◌≡◌, refl, ◌∙◌, inl, inr}
use qonto.Go.Errors.{Error, Result, ok, err}
use qonto.Go.Action.{Action, pure, fail, ◌>>=◌, ◌>>◌}
use qonto.Database.Schema.{Tables}
use qonto.Service.Contract.{View, Does, DoesAt, May, MayAt}

module _ {S : Type 0} (v : View S) {A : Type 0} where
  rebase :
      (s s' : S) (P : A → Tables → Type 0) (x : Result A × S)
      → v.committed s' ≡ v.committed s
      → MayAt v s' P x
      → MayAt v s P x
  rebase s s' P (ok a, _) c h = (h.0 ∙ c, h.1)
  rebase s s' P (err _, _) c h = h ∙ c

  pub May-pure :
      (s : S) {P : A → Tables → Type 0} (a : A) → P a (v.current s) → May v s P (pure a s)
  May-pure s a h = record { holds = (refl, inr h) }

  pub May-fail : (s : S) {P : A → Tables → Type 0} (e : Error) → May v s P (fail {A = A} e s)
  May-fail s e = record { holds = refl }

  weaken :
      (s : S) (P Q : A → Tables → Type 0) (x : Result A × S)
      → ((a : A) (t : Tables) → P a t → Q a t)
      → MayAt v s P x
      → MayAt v s Q x
  weaken s P Q (ok a, s') k (c, inl dead) = (c, inl dead)
  weaken s P Q (ok a, s') k (c, inr p) = (c, inr (k a _ p))
  weaken s P Q (err _, _) k h = h

  pub May-map :
      {s : S} {P Q : A → Tables → Type 0} {x : Result A × S}
      → ((a : A) (t : Tables) → P a t → Q a t)
      → May v s P x
      → May v s Q x
  May-map {s} {P} {Q} {x} k h = record { holds = weaken s P Q x k h.holds }

module _ {S : Type 0} (v : View S) {A B : Type 0} where
  continue :
      (s : S) (P : A → Tables → Type 0) (Q : B → Tables → Type 0) (f : A → Action S B)
      (x : Result A × S)
      → ((a : A) (s' : S)
          → v.committed s' ≡ v.committed s
          → v.aborted s' ≡ v.aborted s
          → P a (v.current s')
          → May v s' Q (f a s'))
      → DoesAt v s P x
      → MayAt v s Q (((λ (_ : S). x) >>= f) s)
  continue s P Q f (ok a, s') k (c, d, p) = rebase v s s' Q _ c (k a s' c d p).holds
  continue s P Q f (err _, _) k h = h

  pub Does-bind :
      {s : S} {P : A → Tables → Type 0} {Q : B → Tables → Type 0} (m : Action S A)
      (f : A → Action S B)
      → Does v s P (m s)
      → ((a : A) (s' : S)
          → v.committed s' ≡ v.committed s
          → v.aborted s' ≡ v.aborted s
          → P a (v.current s')
          → May v s' Q (f a s'))
      → May v s Q ((m >>= f) s)
  Does-bind {s} {P} {Q} m f d k = record { holds = continue s P Q f (m s) k d.holds }

  finally :
      (s : S) (P : A → Tables → Type 0) (Q : B → Tables → Type 0) (b : B) (x : Result A × S)
      → ((a : A) (t : Tables) → P a t → Q b t)
      → MayAt v s P x
      → MayAt v s Q (((λ (_ : S). x) >> pure b) s)
  finally s P Q b (ok a, s') k (c, inl dead) = (c, inl dead)
  finally s P Q b (ok a, s') k (c, inr p) = (c, inr (k a _ p))
  finally s P Q b (err _, _) k h = h

  pub May-finally :
      {s : S} {P : A → Tables → Type 0} {Q : B → Tables → Type 0} (m : Action S A) (b : B)
      → May v s P (m s)
      → ((a : A) (t : Tables) → P a t → Q b t)
      → May v s Q ((m >> pure b) s)
  May-finally {s} {P} {Q} m b h k = record { holds = finally s P Q b (m s) k h.holds }
