-- ===== src/Vfs/TmpFs/Tree.antt =====
-- The nodes of tmpfs.rs, and its directories: `BTreeMap<String, Node>` as the list of its entries
-- in the order of their names.
use vyper.Prelude.{
  ℕ, suc, Bool, true, false, Option, none, some, List, [], ◌∷◌, if◌then◌else◌, ltb, ◌==◌, Bytes,
  bytes_eq, bytes_eq_iff, arith, ◌≡◌, refl,
}
use vyper.Vfs.Types.{FileType, DirEntry}

mutual
  pub data Node : Type 0 where
    file : Bytes → Node
    directory : Entries → Node

  pub data Entries : Type 0 where
    nil : Entries
    entry : Bytes → Node → Entries → Entries

-- The order of `str`, by bytes.
abbrev pub bytes_lt : Bytes → Bytes → Bool
bytes_lt xs [] = false
bytes_lt [] (y ∷ ys) = true
bytes_lt (x ∷ xs) (y ∷ ys) = if x == y then bytes_lt xs ys else ltb x y

-- `BTreeMap::get` and `get_mut`
unfoldable pub get : Bytes → Entries → Option Node
get k nil = none
get k (entry j n es) = if bytes_eq j k then some n else get k es

unfoldable pub contains_key : Bytes → Entries → Bool
contains_key k es = elim (get k es) [ none ↦ false | some n ↦ true ]

-- `BTreeMap::insert`
unfoldable pub insert : Bytes → Node → Entries → Entries
insert k m nil = entry k m nil
insert k m (entry j n es) =
    let rest = insert k m es in
    if bytes_eq j k
    then entry k m es
    else if bytes_lt k j
    then entry k m (entry j n es)
    else entry j n rest

-- `BTreeMap::remove`; a name has one entry at most.
unfoldable pub remove : Bytes → Entries → Entries
remove k nil = nil
remove k (entry j n es) = if bytes_eq j k then remove k es else entry j n (remove k es)

-- `BTreeMap::len`
unfoldable pub count : Entries → ℕ
count nil = 0
count (entry j n es) = suc (count es)

-- `Node::file_type`
unfoldable pub node_file_type : Node → FileType
node_file_type (file content) = FileType.file
node_file_type (directory es) = FileType.directory

-- The iteration of `readdir`.
unfoldable pub dir_entries : Entries → List DirEntry
dir_entries nil = []
dir_entries (entry k n es) = record { name = k; file_type = node_file_type n } ∷ dir_entries es

pub get-insert :
    (j k : Bytes) (m : Node) (es : Entries)
    → get j (insert k m es) ≡ (if bytes_eq k j then some m else get j es)
unfolding get insert
get-insert j k m nil = refl
get-insert j k m (entry i n es) =
    ground (arith, get-insert j k m es, bytes_eq_iff i k, bytes_eq_iff i j, bytes_eq_iff k j)

pub get-remove :
    (j k : Bytes) (es : Entries) → get j (remove k es) ≡ (if bytes_eq k j then none else get j es)
unfolding get remove
get-remove j k nil = ground arith
get-remove j k (entry i n es) =
    ground (arith, get-remove j k es, bytes_eq_iff i k, bytes_eq_iff i j, bytes_eq_iff k j)
