-- ===== src/Platform/Tracer.antt =====
-- pkg/database/querytracer.go and isConcurrencyConflict of pkg/database/metrics.go
use Prim.Native.String.{◌++◌ as ◌<>◌}
use text.Mathlib.Text.{◌==◌}
use qonto.Prelude.{
  ℕ, ◌-◌, String, Bool, true, false, ◌||◌, ◌&&◌, ◌≡◌, refl, Bytes, Option, none, some, List, [],
  ◌∷◌, All, leb, ltb, if◌then◌else◌, codes, arith, Bool-cases, inl, inr,
}
use qonto.Prelude.Int.{ℤ, pos, eqb_ℤ}
use qonto.Go.Errors.{Error, Result, ok, err}
use qonto.Go.Context.{Context, phase_from_context}
use qonto.Store.Session.{as_pg_error}

-- The space characters of ASCII.
abbrev pub is_space : ℕ → Bool
is_space c = ltb 8 c && ltb c 14 || leb c 32 && leb 32 c

unfoldable pub trim_left : Bytes → Bytes
trim_left [] = []
trim_left (c ∷ s) = if is_space c then trim_left s else c ∷ s

abbrev pub cons_unless : Bool → ℕ → Bytes → Bytes
cons_unless true c [] = []
cons_unless true c (d ∷ s) = c ∷ d ∷ s
cons_unless false c s = c ∷ s

unfoldable pub trim_right : Bytes → Bytes
trim_right [] = []
trim_right (c ∷ s) = cons_unless (is_space c) c (trim_right s)

-- `strings.TrimSpace`, on ASCII
abbrev pub trim_space : Bytes → Bytes
trim_space s = trim_right (trim_left s)

-- A character of " \t\n("
abbrev pub ends_word : ℕ → Bool
ends_word c = leb c 32 && leb 32 c || leb c 10 && leb 9 c || leb c 40 && leb 40 c

-- `sql[:end]`
unfoldable pub first_word : Bytes → Bytes
first_word [] = []
first_word (c ∷ s) = if ends_word c then [] else c ∷ first_word s

-- `strings.ToUpper`, on ASCII
unfoldable pub to_upper : Bytes → Bytes
to_upper [] = []
to_upper (c ∷ s) = (if leb b'a' c && leb c b'z' then c - 32 else c) ∷ to_upper s

abbrev pub word_or_unknown : Bytes → Bytes
word_or_unknown [] = codes "UNKNOWN"
word_or_unknown (c ∷ s) = to_upper (first_word (c ∷ s))

unfoldable pub sql_operation : Bytes → Bytes
unfolding trim_left trim_right first_word to_upper
sql_operation sql = word_or_unknown (trim_space sql)

unfoldable pub phased_span_name : Context → String → String
phased_span_name ctx base = elim (phase_from_context ctx) [
  | none ↦ base
  | some phase ↦ if phase == "" then base else phase <> (": " <> base)
]

unfoldable pub is_concurrency_conflict : Error → Bool
unfolding as_pg_error
is_concurrency_conflict e = elim (as_pg_error e) [
  | none ↦ false
  | some code ↦ code == "40001" || code == "40P01"
]

upper_ends :
    (c : ℕ)
    → ends_word c ≡ false
    → ends_word (if leb b'a' c && leb c b'z' then c - 32 else c) ≡ false
upper_ends c h = ground arith

to_upper-first_word : (s : Bytes) → All (λ c. ends_word c ≡ false) (to_upper (first_word s))
unfolding to_upper first_word
to_upper-first_word [] = tt
to_upper-first_word (c ∷ s) = elim (Bool-cases (ends_word c)) [
  | inl stop ↦ rw stop tt
  | inr go ↦ rw go (upper_ends c go, to_upper-first_word s)
]

labelled : (s : Bytes) → All (λ c. ends_word c ≡ false) (word_or_unknown s)
labelled [] = (refl, (refl, (refl, (refl, (refl, (refl, (refl, tt)))))))
labelled (c ∷ s) = to_upper-first_word (c ∷ s)

-- No character of the label ends a word.
pub sql_operation-ends_word : (sql : Bytes) → All (λ c. ends_word c ≡ false) (sql_operation sql)
unfolding sql_operation
sql_operation-ends_word sql = labelled (trim_space sql)

-- The attribute "db.args" of a query, if it has arguments that encoding/json can write.
unfoldable pub query_args_attr : {A : Type 0} → (List A → Result Bytes) → List A → Option Bytes
query_args_attr marshal [] = none
query_args_attr marshal (x ∷ xs) = elim (marshal (x ∷ xs)) [ ok text ↦ some text | err e ↦ none ]

-- The gauge of the pool's mean wait; the quotient of a float is a parameter.
unfoldable pub pool_wait : {F : Type 0} → F → (ℤ → ℤ → F) → ℤ → ℤ → F
pool_wait zero_seconds per acquire_count acquire_duration =
    if eqb_ℤ acquire_count (pos 0) then zero_seconds else per acquire_duration acquire_count
