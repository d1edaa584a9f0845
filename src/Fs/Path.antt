-- ===== src/Fs/Path.antt =====
-- Path names, of kernel/fs.c: `skipelem`.
--
-- A path is the list of its bytes before the NUL. The name that an element is copied to is a map from
-- offsets to bytes.
pub mod Elements
use os_design_practice.Prelude.{
  List, Option, [], if◌then◌else◌, leb, length, none, some, take, update, ℕ, ◌+◌, ◌==◌, ◌∷◌,
}

abbrev pub dirsiz : ℕ
dirsiz = 14

-- '/'
abbrev pub slash : ℕ
slash = 47

-- `while(*path == '/') path++;`
unfoldable pub drop_slashes : List ℕ → List ℕ
drop_slashes [] = []
drop_slashes (c ∷ cs) = let rest = drop_slashes cs in if c == slash then rest else c ∷ cs

abbrev pub cons_first : ℕ → List ℕ × List ℕ → List ℕ × List ℕ
cons_first c (s, rest) = (c ∷ s, rest)

-- What the loop `while(*path != '/' && *path != 0)` goes over, and where it ends.
unfoldable pub element : List ℕ → List ℕ × List ℕ
element [] = ([], [])
element (c ∷ cs) = let r = element cs in if c == slash then ([], c ∷ cs) else cons_first c r

unfoldable pub write_bytes : (ℕ → ℕ) → ℕ → List ℕ → ℕ → ℕ
write_bytes f i [] = f
write_bytes f i (c ∷ cs) = write_bytes (update f i c) (i + 1) cs

unfoldable pub set_name : (ℕ → ℕ) → List ℕ → ℕ → ℕ
unfolding write_bytes
set_name name s =
    if leb dirsiz (length s)
    then write_bytes name 0 (take dirsiz s)
    else update (write_bytes name 0 s) (length s) 0

unfoldable pub after_element : (ℕ → ℕ) → List ℕ × List ℕ → List ℕ × (ℕ → ℕ)
unfolding drop_slashes set_name
after_element name (s, rest) = (drop_slashes rest, set_name name s)

-- The rest of the path, and the name; `none` is the null pointer.
unfoldable pub skipelem : List ℕ → (ℕ → ℕ) → Option (List ℕ × (ℕ → ℕ))
unfolding drop_slashes element
skipelem path name = elim (drop_slashes path) [
  | [] ↦ none
  | c ∷ cs ↦ some (after_element name (element (c ∷ cs)))
]
