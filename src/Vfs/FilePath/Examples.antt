-- ===== src/Vfs/FilePath/Examples.antt =====
-- Paths of the shell.
use vyper.Prelude.{bytes, ◌≡◌, ◌≢◌, refl, List, [], ◌∷◌, Bytes, arith}
use vyper.Vfs.FilePath.{
  slash, split, pop, step, dot, dot_dot, walk, parts_from, normalize_path, resolve_path,
}
use vyper.Vfs.FilePath.Split.{NoSlash}
use vyper.Vfs.FilePath.Laws.{IsComponent, Components}
use vyper.Vfs.FilePath.Moves.{Leads, joined, resolve_path_lem}

abbrev cwd : List Bytes
cwd = bytes "mnt" ∷ bytes "usb" ∷ []

cwd-Components : Components cwd
cwd-Components = (
  named (bytes "mnt") (λ e. cc) (λ e. cc) (λ e. cc) (omega arith),
  (named (bytes "usb") (λ e. cc) (λ e. cc) (λ e. cc) (omega arith), tt),
)
  where
    named : (p : Bytes) → p ≢ [] → p ≢ dot → p ≢ dot_dot → NoSlash p → IsComponent p
    named p a b c d = record { not_empty = a; not_dot = b; not_dot_dot = c; no_slash = d }

normalised : normalize_path (bytes "//mnt/./usb/../../..//etc/") ≡ bytes "/etc"
unfolding normalize_path parts_from walk step pop split
normalised = refl

above : resolve_path (bytes "../a.txt") (bytes "/mnt/usb") ≡ bytes "/mnt/a.txt"
unfolding resolve_path normalize_path parts_from walk step pop split
above = refl

resolve_path_lem_example :
    Leads (bytes "../a.txt") cwd (resolve_path (bytes "../a.txt") (slash ∷ joined cwd))
resolve_path_lem_example = resolve_path_lem (bytes "../a.txt") cwd cwd-Components
