-- ===== src/Prelude/Pieces.antt =====
-- A list cut into pieces: rows taken, rows dropped, and the last one that was taken.
use Prim.Native.Nat.{ℕ, zero, suc, ◌≤◌, ◌<◌}
use mathlib.Core.Path.{◌≡◌, refl, ap}
use mathlib.Core.Bool.{true}
use mathlib.Core.List.{List, [], ◌∷◌, ◌++◌}
use mathlib.Core.Option.{some}
use native.Mathlib.Omega.{arith}
use qonto.Prelude.Tests.{ltb}
use qonto.Prelude.Lists.{length, take, drop, last?}

-- k + n, by clauses.
abbrev pub past : ℕ → ℕ → ℕ
past zero n = n
past (suc k) n = suc (past k n)

module _ {ℓ} {A : Type ℓ} where
  pub last-exists :
      (n : ℕ) (xs : List A)
      → 0 < n
      → ltb n (length xs) ≡ true
      → (l : A) × (last? (take n xs) ≡ some l)
  last-exists zero xs p h = ground arith
  last-exists (suc n) [] p h = ground arith
  last-exists (suc zero) (x ∷ xs) p h = (x, refl)
  last-exists (suc (suc n)) (x ∷ []) p h = (x, refl)
  last-exists (suc (suc n)) (x ∷ y ∷ xs) p h =
      last-exists (suc n) (y ∷ xs) (omega arith) (ground arith)

  last-cons : (x l : A) (xs : List A) → last? xs ≡ some l → last? (x ∷ xs) ≡ some l
  last-cons x l [] h = cc
  last-cons x l (y ∷ xs) h = h

  pub last-take-drop :
      (k n : ℕ) (xs : List A) (l : A)
      → last? (take n (drop k xs)) ≡ some l
      → last? (take (past k n) xs) ≡ some l
  last-take-drop zero n xs l h = h
  last-take-drop (suc k) zero [] l h = h
  last-take-drop (suc k) (suc n) [] l h = h
  last-take-drop (suc k) n (x ∷ xs) l h =
      last-cons x l (take (past k n) xs) (last-take-drop k n xs l h)

  pub drop-drop : (k n : ℕ) (xs : List A) → drop (past k n) xs ≡ drop n (drop k xs)
  drop-drop zero n xs = refl
  drop-drop (suc k) zero [] = refl
  drop-drop (suc k) (suc n) [] = refl
  drop-drop (suc k) n (x ∷ xs) = drop-drop k n xs

  pub take-append-drop : (n : ℕ) (xs : List A) → take n xs ++ drop n xs ≡ xs
  take-append-drop zero xs = refl
  take-append-drop (suc n) [] = refl
  take-append-drop (suc n) (x ∷ xs) = ap (λ r. x ∷ r) (take-append-drop n xs)

  pub take-take : (n m : ℕ) (xs : List A) → n ≤ m → take n (take m xs) ≡ take n xs
  take-take zero m xs h = refl
  take-take (suc n) zero xs h = ground arith
  take-take (suc n) (suc m) [] h = refl
  take-take (suc n) (suc m) (x ∷ xs) h = ap (λ r. x ∷ r) (take-take n m xs (omega arith))
