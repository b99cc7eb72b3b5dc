-- ===== src/TestUtil/Migrations.antt =====
-- Where the tests look for the migrations.
use mathlib.Core.List.{reverse, reverse_aux, reverse_aux-append, reverse-cons, reverse-reverse}
use qonto.Prelude.{
  ◌≡◌, refl, sym, ap, ◌∙◌, Bytes, codes, List, [], ◌∷◌, ◌++◌, true, All, All-append, append_assoc,
  arith,
}
use qonto.Go.Filepath.{render, split, joined, resolve, join}
use qonto.Go.Filepath.Names.{IsName, clean-names, dir-names}
use qonto.TestUtil.{migrations_dir}

abbrev inside : List Bytes
inside = codes "pkg" ∷ codes "testutil" ∷ []

inside-IsName : All (λ y. IsName y) inside
inside-IsName = (
  record { no_separator = omega arith; is_name = refl },
  (record { no_separator = omega arith; is_name = refl }, tt),
)

abbrev up_to_migrations : List Bytes
up_to_migrations = codes ".." ∷ codes ".." ∷ codes "migrations" ∷ []

-- Up from the package, and down to the migrations.
climbs :
    (root : List Bytes)
    → reverse (resolve true (reverse_aux (root ++ inside) []) (split (joined up_to_migrations)))
      ≡ root ++ codes "migrations" ∷ []
unfolding resolve split joined
climbs root =
    ap (λ l. reverse (resolve true l up_to_migrations)) (reverse_aux-append root inside [])
    ∙ reverse-cons (codes "migrations") (reverse root)
    ∙ ap (λ l. l ++ codes "migrations" ∷ []) (reverse-reverse root)

beside :
    (x : Bytes) (xs : List Bytes)
    → All (λ y. IsName y) (x ∷ xs)
    → migrations_dir (render true ((x ∷ xs) ++ codes "database.go" ∷ []))
      ≡ render true
          (reverse (resolve true (reverse_aux (x ∷ xs) []) (split (joined up_to_migrations))))
unfolding migrations_dir joined join
beside x xs h =
    ap (λ d. join (d ∷ up_to_migrations)) (dir-names x xs (codes "database.go") h (omega arith))
    ∙ clean-names x xs (joined up_to_migrations) h

-- In a repository at an absolute path of names, the migrations of the tests are the directory
-- "migrations" at its root.
pub migrations_dir-root :
    (root : List Bytes)
    → All (λ y. IsName y) root
    → migrations_dir (render true (root ++ (inside ++ codes "database.go" ∷ [])))
      ≡ render true (root ++ codes "migrations" ∷ [])
migrations_dir-root [] h =
    beside (codes "pkg") (codes "testutil" ∷ []) inside-IsName ∙ ap (render true) (climbs [])
migrations_dir-root (x ∷ xs) h =
    ap (λ l. migrations_dir (render true (x ∷ l)))
      (sym (append_assoc xs inside (codes "database.go" ∷ [])))
    ∙ beside x (xs ++ inside) (All-append (λ y. IsName y) (x ∷ xs) inside h inside-IsName)
    ∙ ap (render true) (climbs (x ∷ xs))
