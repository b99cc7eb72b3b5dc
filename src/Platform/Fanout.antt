-- ===== src/Platform/Fanout.antt =====
-- The fan-out handler of pkg/observability/logging.go, over handlers that act on a state.
use qonto.Prelude.{
  String, Bool, Bool-cases, inl, inr, true, false, ◌≡◌, refl, sym, ◌∙◌, Option, none, some, List,
  [], ◌∷◌, map, ap, if◌then◌else◌,
}
use qonto.Prelude.Int.{ℤ}
use qonto.Go.Errors.{Error}

-- A slog.Record, as far as the handler reads it.
pub record LogRecord : Type 0 where
  pub level : ℤ
  pub message : String

pub record LogHandler (S : Type 0) : Type 0 where
  pub enabled : ℤ → Bool
  pub handle : LogRecord → S → Option Error × S

module _ {S : Type 0} where
  unfoldable pub fanout_enabled : List (LogHandler S) → ℤ → Bool
  fanout_enabled [] level = false
  fanout_enabled (h ∷ hs) level = if h.enabled level then true else fanout_enabled hs level

  abbrev pub collect : Option Error → List Error × S → List Error × S
  collect none rest = rest
  collect (some e) (es, s) = (e ∷ es, s)

  -- The errors, which `errors.Join` joins in this order; a handler that is not enabled is left out.
  unfoldable pub fanout_handle : List (LogHandler S) → LogRecord → S → List Error × S
  fanout_handle [] r s = ([], s)
  fanout_handle (h ∷ hs) r s =
      if h.enabled r.level
      then (let (e, s') = h.handle r s in collect e (fanout_handle hs r s'))
      else fanout_handle hs r s

  -- Where no handler is enabled for a level, a record of that level changes nothing and is no error.
  pub fanout_disabled :
      (hs : List (LogHandler S)) (r : LogRecord) (s : S)
      → fanout_enabled hs r.level ≡ false
      → fanout_handle hs r s ≡ ([], s)
  unfolding fanout_enabled fanout_handle
  fanout_disabled [] r s h = refl
  fanout_disabled (x ∷ hs) r s h = elim (Bool-cases (x.enabled r.level)) [
    | inl on ↦ cc
    | inr off ↦ rw off (fanout_disabled hs r s (sym (rw off refl) ∙ h))
  ]

-- An attribute of slog, as a key and the text of its value.
pub record Attr : Type 0 where
  pub key : String
  pub value : String

-- `WithAttrs` and `WithGroup` of the handlers themselves are a parameter.
module _ {S : Type 0} (with_attrs : LogHandler S → List Attr → LogHandler S)
    (with_group : LogHandler S → String → LogHandler S) where
  unfoldable pub fanout_with_attrs : List (LogHandler S) → List Attr → List (LogHandler S)
  fanout_with_attrs hs attrs = map (λ h. with_attrs h attrs) hs

  unfoldable pub fanout_with_group : List (LogHandler S) → String → List (LogHandler S)
  fanout_with_group hs name = map (λ h. with_group h name) hs

  -- Attributes and groups do not change what is enabled, where they do not for each handler.
  pub fanout_enabled-fanout_with_attrs :
      ((h : LogHandler S) (attrs : List Attr) (level : ℤ)
        → (with_attrs h attrs).enabled level ≡ h.enabled level)
      → (hs : List (LogHandler S)) (attrs : List Attr) (level : ℤ)
      → fanout_enabled (fanout_with_attrs hs attrs) level ≡ fanout_enabled hs level
  unfolding fanout_enabled fanout_with_attrs
  fanout_enabled-fanout_with_attrs same [] attrs level = refl
  fanout_enabled-fanout_with_attrs same (h ∷ hs) attrs level = rw (same h attrs level) (
      ap (λ b. if h.enabled level then true else b)
        (fanout_enabled-fanout_with_attrs same hs attrs level))
