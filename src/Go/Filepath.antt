-- ===== src/Go/Filepath.antt =====
-- `filepath.Dir` and `filepath.Join` of Go's library, on Unix.
pub mod Names
use qonto.Prelude.{ℕ, Bool, true, false, ◌&&◌, Bytes, List, [], ◌∷◌, ◌++◌, ◌==◌, if◌then◌else◌}
use mathlib.Core.List.{reverse}

-- '/'
abbrev pub separator : ℕ
separator = 47

abbrev pub onto_first : ℕ → List Bytes → List Bytes
onto_first c [] = (c ∷ []) ∷ []
onto_first c (x ∷ xs) = (c ∷ x) ∷ xs

-- The parts of a path between its separators.
unfoldable pub split : Bytes → List Bytes
split [] = [] ∷ []
split (c ∷ s) = let rest = split s in if c == separator then [] ∷ rest else onto_first c rest

pub data Part : Type 0 where
  skip parent name : Part

-- "" and "." are skipped, ".." goes up.
abbrev pub part_of : Bytes → Part
part_of [] = skip
part_of (c ∷ []) = if c == 46 then skip else name
part_of (c ∷ d ∷ []) = if c == 46 && d == 46 then parent else name
part_of _ = name

abbrev pub up : Bool → List Bytes → List Bytes
up rooted [] = if rooted then [] else (46 ∷ 46 ∷ []) ∷ []
up rooted (x ∷ stack) = elim (part_of x) [ parent ↦ (46 ∷ 46 ∷ []) ∷ x ∷ stack | _ ↦ stack ]

abbrev pub enter : Bool → Bytes → List Bytes → Part → List Bytes
enter rooted x stack skip = stack
enter rooted x stack parent = up rooted stack
enter rooted x stack name = x ∷ stack

-- The names that are left, innermost first.
unfoldable pub resolve : Bool → List Bytes → List Bytes → List Bytes
resolve rooted stack [] = stack
resolve rooted stack (x ∷ xs) = resolve rooted (enter rooted x stack (part_of x)) xs

unfoldable pub joined : List Bytes → Bytes
joined [] = []
joined (x ∷ []) = x
joined (x ∷ y ∷ rest) = x ++ separator ∷ joined (y ∷ rest)

abbrev pub render : Bool → List Bytes → Bytes
render true names = separator ∷ joined names
render false [] = 46 ∷ []
render false (x ∷ xs) = joined (x ∷ xs)

abbrev pub is_rooted : Bytes → Bool
is_rooted [] = false
is_rooted (c ∷ _) = c == separator

unfoldable pub clean : Bytes → Bytes
unfolding split resolve joined
clean path = render (is_rooted path) (reverse (resolve (is_rooted path) [] (split path)))

abbrev pub keep : ℕ → Bytes → Bytes
keep c (d ∷ rest) = c ∷ d ∷ rest
keep c [] = if c == separator then c ∷ [] else []

-- The path up to its last separator.
unfoldable pub before_name : Bytes → Bytes
before_name [] = []
before_name (c ∷ s) = keep c (before_name s)

unfoldable pub dir : Bytes → Bytes
unfolding clean before_name
dir path = clean (before_name path)

-- Empty elements in front are left out.
unfoldable pub join : List Bytes → Bytes
unfolding clean joined
join [] = []
join ([] ∷ rest) = join rest
join ((c ∷ x) ∷ rest) = clean (joined ((c ∷ x) ∷ rest))
