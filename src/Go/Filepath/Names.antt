-- ===== src/Go/Filepath/Names.antt =====
-- Paths that are a list of names.
use mathlib.Core.List.{reverse, reverse_aux, reverse-reverse}
use qonto.Prelude.{
  ℕ, true, ◌≡◌, refl, sym, ap, ◌∙◌, ◌≢◌, Bytes, List, [], ◌∷◌, ◌++◌, All, ◌==◌, append_assoc, arith,
  Bool-cases, inl, inr,
}
use qonto.Go.Filepath.{
  separator, onto_first, split, name, part_of, enter, resolve, joined, keep, render, clean,
  before_name, dir,
}

-- A name has no separator, and is neither empty nor "." nor "..".
pub record IsName (x : Bytes) : Type 0 where
  pub no_separator : All (λ c. c ≢ separator) x
  pub is_name : part_of x ≡ name

split-name : (x : Bytes) → All (λ c. c ≢ separator) x → split x ≡ x ∷ []
unfolding split
split-name [] h = refl
split-name (c ∷ x) (h, hs) = ground (arith, split-name x hs)

onto_first-append :
    (c : ℕ) (y : Bytes) (ys zs : List Bytes)
    → onto_first c ((y ∷ ys) ++ zs) ≡ onto_first c (y ∷ ys) ++ zs
onto_first-append c y ys zs = refl

-- A text has at least one part.
split_cons : (s : Bytes) → (y : Bytes) × (ys : List Bytes) × (split s ≡ y ∷ ys)
unfolding split
split_cons [] = ([], [], refl)
split_cons (c ∷ s) = elim (Bool-cases (c == separator)) [
  | inl stop ↦ ([], split s, rw stop refl)
  | inr on ↦ let (y, ys, e) = split_cons s in (c ∷ y, ys, rw (on, e) refl)
]

-- The parts on both sides of a separator.
pub split-append : (a b : Bytes) → split (a ++ separator ∷ b) ≡ split a ++ split b
unfolding split
split-append [] b = refl
split-append (c ∷ a) b = elim (Bool-cases (c == separator)) [
  | inl stop ↦ rw stop (ap (λ l. [] ∷ l) (split-append a b))
  | inr on ↦
      let (y, ys, e) = split_cons a in
      rw on (
        ap (onto_first c) (split-append a b ∙ ap (λ l. l ++ split b) e)
        ∙ ap (λ l. onto_first c l ++ split b) (sym e))
]

pub split-joined :
    (x : Bytes) (xs : List Bytes) → All (λ y. IsName y) (x ∷ xs) → split (joined (x ∷ xs)) ≡ x ∷ xs
unfolding joined
split-joined x [] (h, _) = split-name x h.no_separator
split-joined x (y ∷ ys) (h, hs) =
    split-append x (joined (y ∷ ys))
    ∙ ap (λ l. l ++ split (joined (y ∷ ys))) (split-name x h.no_separator)
    ∙ ap (λ l. x ∷ l) (split-joined y ys hs)

-- Names are piled up.
resolve-names :
    (xs rest stack : List Bytes)
    → All (λ y. IsName y) xs
    → resolve true stack (xs ++ rest) ≡ resolve true (reverse_aux xs stack) rest
unfolding resolve
resolve-names [] rest stack h = refl
resolve-names (x ∷ xs) rest stack (h, hs) =
    ap (λ k. resolve true (enter true x stack k) (xs ++ rest)) h.is_name
    ∙ resolve-names xs rest (x ∷ stack) hs

-- An absolute path of names, with more behind a separator.
pub clean-names :
    (x : Bytes) (xs : List Bytes) (b : Bytes)
    → All (λ y. IsName y) (x ∷ xs)
    → clean ((separator ∷ joined (x ∷ xs)) ++ separator ∷ b)
      ≡ render true (reverse (resolve true (reverse_aux (x ∷ xs) []) (split b)))
unfolding clean split resolve
clean-names x xs b h =
    ap (λ l. render true (reverse (resolve true [] ([] ∷ l))))
      (split-append (joined (x ∷ xs)) b ∙ ap (λ l. l ++ split b) (split-joined x xs h))
    ∙ ap (λ l. render true (reverse l)) (resolve-names (x ∷ xs) (split b) [] h)

kept : (c : ℕ) (s : Bytes) (t : Bytes) → keep c (s ++ separator ∷ t) ≡ c ∷ (s ++ separator ∷ t)
kept c [] t = refl
kept c (d ∷ s) t = refl

before_name-name : (f : Bytes) → All (λ c. c ≢ separator) f → before_name f ≡ []
unfolding before_name
before_name-name [] h = refl
before_name-name (c ∷ f) (h, hs) = ground (arith, before_name-name f hs)

before_name-append :
    (a f : Bytes)
    → All (λ c. c ≢ separator) f
    → before_name (a ++ separator ∷ f) ≡ a ++ separator ∷ []
unfolding before_name
before_name-append [] f h = ap (keep separator) (before_name-name f h)
before_name-append (c ∷ a) f h = ap (keep c) (before_name-append a f h) ∙ kept c a []

joined-append :
    (x : Bytes) (xs : List Bytes) (f : Bytes)
    → joined ((x ∷ xs) ++ (f ∷ [])) ≡ joined (x ∷ xs) ++ separator ∷ f
unfolding joined
joined-append x [] f = refl
joined-append x (y ∷ ys) f =
    ap (λ l. x ++ separator ∷ l) (joined-append y ys f)
    ∙ sym (append_assoc x (separator ∷ joined (y ∷ ys)) (separator ∷ f))

-- The directory of a file is the path of the names before it.
pub dir-names :
    (x : Bytes) (xs : List Bytes) (f : Bytes)
    → All (λ y. IsName y) (x ∷ xs)
    → All (λ c. c ≢ separator) f
    → dir (render true ((x ∷ xs) ++ (f ∷ []))) ≡ render true (x ∷ xs)
unfolding dir split resolve
dir-names x xs f h plain =
    ap (λ l. clean (before_name (separator ∷ l))) (joined-append x xs f)
    ∙ ap clean (before_name-append (separator ∷ joined (x ∷ xs)) f plain)
    ∙ clean-names x xs [] h
    ∙ ap (render true) (reverse-reverse (x ∷ xs))
