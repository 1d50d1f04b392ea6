-- ===== src/Vfs/FilePath.antt =====
-- `normalize_path` and `resolve_path` of vcore/src/vfs/mod.rs. A path is its bytes: every byte of
-- a character outside ASCII is at least 128, so the bytes '/' and '.' are the characters.
pub mod Split
pub mod Laws
pub mod Moves
pub mod Utf
mod Examples
use vyper.Prelude.{ℕ, Bool, ◌||◌, List, [], ◌∷◌, ◌++◌, ◌==◌, if◌then◌else◌, Bytes, bytes_eq}

abbrev pub slash : ℕ
slash = b'/'

-- `[c, ..first], ..rest` for the pieces `first, ..rest`
abbrev pub cons_first : ℕ → List Bytes → List Bytes
cons_first c [] = (c ∷ []) ∷ []
cons_first c (first ∷ rest) = (c ∷ first) ∷ rest

-- `str::split('/')`
unfoldable pub split : Bytes → List Bytes
split [] = [] ∷ []
split (c ∷ cs) = let rest = split cs in if c == slash then [] ∷ rest else cons_first c rest

-- `Vec::pop`
unfoldable pub pop : List Bytes → List Bytes
pop [] = []
pop (p ∷ []) = []
pop (p ∷ q ∷ ps) = p ∷ pop (q ∷ ps)

abbrev pub dot : Bytes
dot = b'.' ∷ []

abbrev pub dot_dot : Bytes
dot_dot = b'.' ∷ b'.' ∷ []

-- One round of the `for` loop.
unfoldable pub step : List Bytes → Bytes → List Bytes
step parts part =
    if bytes_eq part [] || bytes_eq part dot
    then parts
    else if bytes_eq part dot_dot
    then pop parts
    else parts ++ (part ∷ [])

unfoldable pub walk : List Bytes → List Bytes → List Bytes
walk parts [] = parts
walk parts (p ∷ ps) = walk (step parts p) ps

abbrev pub join : List Bytes → Bytes
join [] = []
join (p ∷ ps) = slash ∷ (p ++ join ps)

abbrev pub render : List Bytes → Bytes
render [] = slash ∷ []
render (p ∷ ps) = join (p ∷ ps)

-- The components of a path, relative to some.
unfoldable pub parts_from : List Bytes → Bytes → List Bytes
parts_from parts path = walk parts (split path)

unfoldable pub normalize_path : Bytes → Bytes
normalize_path path = render (parts_from [] path)

abbrev pub starts_with_slash : Bytes → Bool
starts_with_slash [] = Bool.false
starts_with_slash (c ∷ cs) = c == slash

abbrev pub ends_with_slash : Bytes → Bool
ends_with_slash [] = Bool.false
ends_with_slash (c ∷ []) = c == slash
ends_with_slash (c ∷ d ∷ cs) = ends_with_slash (d ∷ cs)

unfoldable pub resolve_path : Bytes → Bytes → Bytes
resolve_path path cwd =
    if starts_with_slash path
    then normalize_path path
    else (let full = if ends_with_slash cwd then cwd else cwd ++ (slash ∷ []) in
        normalize_path (full ++ path))
