-- ===== src/Go/Strings.antt =====
-- `strings.Cut` with a one-byte separator.
use qonto.Prelude.{
  ℕ, ◌≡◌, refl, ◌≢◌, Bool, true, false, Bytes, [], ◌∷◌, ◌++◌, All, arith, ◌==◌, if◌then◌else◌,
}

pub record Cut : Type 0 where
  pub before : Bytes
  pub after : Bytes
  pub found : Bool

-- The text before the first `sep` and the text behind it; without a `sep` all of it is before.
unfoldable pub cut : ℕ → Bytes → Cut
cut sep [] = record { before = []; after = []; found = false }
cut sep (c ∷ s) =
    let rest = cut sep s in
    if c == sep
    then record { before = []; after = s; found = true }
    else record rest { before = c ∷ rest.before }

-- What `cut` found puts the text together again.
pub cut_joins :
    (sep : ℕ) (s : Bytes)
    → s ≡ (
        if (cut sep s).found
        then (cut sep s).before ++ sep ∷ (cut sep s).after
        else (cut sep s).before)
unfolding cut
cut_joins sep [] = refl
cut_joins sep (c ∷ s) = ground (arith, cut_joins sep s)

pub cut_found :
    (sep : ℕ) (a b : Bytes)
    → All (λ c. c ≢ sep) a
    → cut sep (a ++ sep ∷ b) ≡ record { before = a; after = b; found = true }
unfolding cut
cut_found sep [] b h = ground arith
cut_found sep (c ∷ a) b h = ground (arith, cut_found sep a b h.1)

pub cut_missing :
    (sep : ℕ) (a : Bytes)
    → All (λ c. c ≢ sep) a
    → cut sep a ≡ record { before = a; after = []; found = false }
unfolding cut
cut_missing sep [] h = refl
cut_missing sep (c ∷ a) h = ground (arith, cut_missing sep a h.1)
