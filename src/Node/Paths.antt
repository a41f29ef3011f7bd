-- ===== src/Node/Paths.antt =====
-- Equality of paths, which `NodeConfig::parse` of integration001/src/node.rs uses: the standard library
-- compares the components of two paths. A path is its bytes.
use avangard.Prelude.{
  ℕ, ◌==◌, not, ◌&&◌, ◌||◌, Bool, true, false, List, [], ◌∷◌, bytes_eq, length, if◌then◌else◌,
}

-- The parts between slashes.
abbrev push : ℕ → List (List ℕ) → List (List ℕ)
push c [] = (c ∷ []) ∷ []
push c (part ∷ parts) = (c ∷ part) ∷ parts

abbrev split_parts : List ℕ → List (List ℕ)
split_parts [] = [] ∷ []
split_parts (c ∷ cs) = let parts = split_parts cs in if c == 47 then [] ∷ parts else push c parts

-- `.` and what is between two slashes in a row are no components,
abbrev normal_parts : List (List ℕ) → List (List ℕ)
normal_parts [] = []
normal_parts (part ∷ parts) =
    let rest = normal_parts parts in
    if length part == 0 || bytes_eq part (46 ∷ []) then rest else part ∷ rest

-- but a `.` in front is one.
abbrev components : List (List ℕ) → List (List ℕ)
components [] = []
components (part ∷ parts) =
    if length part == 0 then normal_parts parts else part ∷ normal_parts parts

abbrev is_absolute : List ℕ → Bool
is_absolute [] = false
is_absolute (c ∷ cs) = c == 47

abbrev same_parts : List (List ℕ) → List (List ℕ) → Bool
same_parts [] [] = true
same_parts (p ∷ ps) (q ∷ qs) = bytes_eq p q && same_parts ps qs
same_parts _ _ = false

abbrev same_flag : Bool → Bool → Bool
same_flag true b = b
same_flag false b = not b

abbrev pub same_path : List ℕ → List ℕ → Bool
same_path a b =
    same_flag (is_absolute a) (is_absolute b)
    && same_parts (components (split_parts a)) (components (split_parts b))
