-- ===== src/Vfs/Mounts/Examples.antt =====
-- The root and two nested mounts; a file system is a number here, and each call adds one to it.
use vyper.Vfs.Mounts.Cuts.{Inside, dispatch_bytes_lem}
use vyper.Prelude.{◌∷◌, bytes, ℕ, suc, ◌≡◌, refl, ◌⊎◌, Bytes, [], ok, err, panic, length}
use vyper.Vfs.Types.{VfsResult, not_found}
use vyper.Vfs.FilePath.{normalize_path, parts_from, walk, step, pop, split}
use vyper.Vfs.Mounts.{
  Mount, Vfs, mount, unmount, resolve, resolve_in, relative_to, dispatch, dispatch_bytes, slices_at,
  is_mounted, sort_mounts, insert_sorted,
}
use vyper.Vfs.Mounts.Order.{IsValid, mount-IsValid, mount-unmount-IsValid}
use vyper.Vfs.Mounts.Resolve.{Served, Covers, NotServed, resolve_lem}
use vyper.Vfs.Mounts.Dispatch.{Reaches, dispatch_lem}

abbrev mounts : Vfs ℕ
mounts = (mount (mount (mount [] (bytes "/") 10).1 (bytes "/live") 20).1 (bytes "/live/tasks") 30).1

mounts-IsValid : IsValid mounts
mounts-IsValid =
    mount-IsValid _ (bytes "/live/tasks") 30
      (mount-IsValid _ (bytes "/live") 20 (mount-IsValid [] (bytes "/") 10 tt))

nearest : resolve mounts (bytes "/live/tasks/3/name") ≡ ok (0, bytes "/3/name")
unfolding mount resolve resolve_in relative_to normalize_path parts_from walk step pop split
    is_mounted sort_mounts insert_sorted
nearest = refl

boundary : resolve mounts (bytes "/lively") ≡ ok (2, bytes "/lively")
unfolding mount resolve resolve_in relative_to normalize_path parts_from walk step pop split
    is_mounted sort_mounts insert_sorted
boundary = refl

abbrev count_call : ℕ → Bytes → VfsResult ℕ × ℕ
count_call n p = (ok (length p), suc n)

resolve_lem_example :
    Served (normalize_path (bytes "/live/x")) mounts (resolve mounts (bytes "/live/x"))
resolve_lem_example = resolve_lem mounts (bytes "/live/x") mounts-IsValid

dispatch_lem_example :
    ((i : ℕ) × (relative : Bytes) × (m : Mount ℕ) × Covers m.path
        (normalize_path (bytes "/live/x"))
        relative
      × Reaches mounts (bytes "/live/x") count_call i relative m)
    ⊎ (NotServed (normalize_path (bytes "/live/x")) mounts
        × (dispatch mounts (bytes "/live/x") count_call ≡ (err not_found, mounts)))
dispatch_lem_example = dispatch_lem mounts (bytes "/live/x") count_call mounts-IsValid

mount-unmount-IsValid_example :
    IsValid (mount mounts (bytes "/dev") 40).1 × IsValid (unmount mounts (bytes "/dev")).1
mount-unmount-IsValid_example = mount-unmount-IsValid mounts (bytes "/dev") 40 mounts-IsValid

-- "/live" and a byte from the middle of a character.
abbrev cut_path : Bytes
cut_path = 47 ∷ 108 ∷ 105 ∷ 118 ∷ 101 ∷ 169 ∷ []

panics_on_cut : dispatch_bytes mounts cut_path count_call ≡ (panic, mounts)
unfolding dispatch_bytes slices_at mount relative_to normalize_path parts_from walk step pop split
    is_mounted sort_mounts insert_sorted
panics_on_cut = refl

dispatch_bytes_lem_example :
    (Inside (normalize_path cut_path) mounts
      × (dispatch_bytes mounts cut_path count_call ≡ (panic, mounts)))
    ⊎ (¬ (Inside (normalize_path cut_path) mounts)
        × (dispatch_bytes mounts cut_path count_call ≡ dispatch mounts cut_path count_call))
dispatch_bytes_lem_example = dispatch_bytes_lem mounts cut_path count_call
