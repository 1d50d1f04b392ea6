-- ===== src/Vfs/Mounts/Dispatch.antt =====
-- A call on the virtual file system reaches the file system that serves its path, and no other.
use mathlib.Core.Option.{some-injective}
use vyper.Prelude.{
  ℕ, zero, suc, ◌≡◌, ◌≢◌, ◌⊎◌, refl, ap, sym, ◌∙◌, [], ◌∷◌, arith, Bytes, length, get_elem?, set,
  some, ok, err, inl, inr, get_elem?_lt, get_elem?-set_ne, get_elem?-set_self,
}
use vyper.Vfs.Types.{VfsResult, not_found}
use vyper.Vfs.FilePath.{normalize_path}
use vyper.Vfs.Mounts.{Mount, Vfs, resolve, dispatch}
use vyper.Vfs.Mounts.Order.{AtMost, Absent, IsValid}
use vyper.Vfs.Mounts.Resolve.{Covers, NotServed, resolve_lem}

module _ {F : Type 0} where
  AtMost-set :
      (n : ℕ) (ms : Vfs F) (i : ℕ) (m : Mount F) {old : Mount F}
      → get_elem? ms i ≡ some old
      → m.path ≡ old.path
      → AtMost n ms
      → AtMost n (set ms i m)
  AtMost-set n [] i m e same a = tt
  AtMost-set n (k ∷ ms) zero m e same a = (ground arith, a.1)
  AtMost-set n (k ∷ ms) (suc i) m e same a = (a.0, AtMost-set n ms i m e same a.1)

  Absent-set :
      (p : Bytes) (ms : Vfs F) (i : ℕ) (m : Mount F) {old : Mount F}
      → get_elem? ms i ≡ some old
      → m.path ≡ old.path
      → Absent p ms
      → Absent p (set ms i m)
  Absent-set p [] i m e same a = tt
  Absent-set p (k ∷ ms) zero m e same a = (λ q. a.0 (ground arith), a.1)
  Absent-set p (k ∷ ms) (suc i) m e same a = (a.0, Absent-set p ms i m e same a.1)

  set-IsValid :
      (ms : Vfs F) (i : ℕ) (m : Mount F) {old : Mount F}
      → get_elem? ms i ≡ some old
      → m.path ≡ old.path
      → IsValid ms
      → IsValid (set ms i m)
  set-IsValid [] i m e same v = tt
  set-IsValid (k ∷ ms) zero m {old} e same v =
      let path_same : m.path ≡ k.path =
        same ∙ ap (λ (n : Mount F). n.path) (sym (some-injective k old e)) in
      rw path_same v
  set-IsValid (k ∷ ms) (suc i) m e same v = (
    AtMost-set (length k.path) ms i m e same v.0,
    Absent-set k.path ms i m e same v.1,
    set-IsValid ms i m e same v.2,
  )

module _ {F A : Type 0} where
  -- What a call that reaches a file system returns and leaves behind.
  pub record Reaches (ms : Vfs F) (path : Bytes) (method : F → Bytes → VfsResult A × F) (i : ℕ)
      (relative : Bytes) (m : Mount F) : Type 0 where
    pub here : get_elem? ms i ≡ some m
    pub returned : (dispatch ms path method).0 ≡ (method m.fs relative).0
    pub updated :
        get_elem? (dispatch ms path method).1 i ≡ some (record m { fs = (method m.fs relative).1 })
    pub others : (j : ℕ) → i ≢ j → get_elem? (dispatch ms path method).1 j ≡ get_elem? ms j
    pub valid : IsValid (dispatch ms path method).1

  dispatch_at :
      (ms : Vfs F) (path : Bytes) (method : F → Bytes → VfsResult A × F) (i : ℕ) (relative : Bytes)
      (m : Mount F)
      → resolve ms path ≡ ok (i, relative)
      → get_elem? ms i ≡ some m
      → dispatch ms path method
        ≡ ((method m.fs relative).0, set ms i (record m { fs = (method m.fs relative).1 }))
  unfolding dispatch
  dispatch_at ms path method i relative m e h = rw (e, dispatch, h)

  -- `open`, `mkdir`, `remove`, `rmdir`, `readdir` and `metadata` of the virtual file system: where
  -- a mount serves the path, the call returns what its file system's method returns at the path
  -- below it, and changes that file system alone; else it returns NotFound and changes nothing.
  pub dispatch_lem :
      (ms : Vfs F) (path : Bytes) (method : F → Bytes → VfsResult A × F)
      → IsValid ms
      → ((i : ℕ) × (relative : Bytes) × (m : Mount F) × Covers m.path (normalize_path path) relative
          × Reaches ms path method i relative m)
        ⊎ (NotServed (normalize_path path) ms × (dispatch ms path method ≡ (err not_found, ms)))
  unfolding dispatch
  dispatch_lem ms path method v = elim (resolve_lem ms path v) [
    | inl (i, relative, e, s) ↦
        inl (i, relative, s.mounted, s.above, reached i relative s.mounted e s.here)
    | inr (e, absent) ↦ inr (absent, unserved e)
  ]
    where
      unserved : resolve ms path ≡ err not_found → dispatch ms path method ≡ (err not_found, ms)
      unserved e = rw (e, dispatch)

      reached :
          (i : ℕ) (relative : Bytes) (m : Mount F)
          → resolve ms path ≡ ok (i, relative)
          → get_elem? ms i ≡ some m
          → Reaches ms path method i relative m
      reached i relative m e h =
          let d = dispatch_at ms path method i relative m e h in
          let new : Mount F = record m { fs = (method m.fs relative).1 } in
          record {
            here = h;
            returned = ap (λ t. t.0) d;
            updated =
                ap (λ t. get_elem? t.1 i) d ∙ get_elem?-set_self ms i new (get_elem?_lt ms i h);
            others = λ j ne. ap (λ t. get_elem? t.1 j) d ∙ get_elem?-set_ne ms i j new ne;
            valid = rw d (set-IsValid ms i new h refl v);
          }
