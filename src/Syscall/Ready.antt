-- ===== src/Syscall/Ready.antt =====
-- The state in which the system calls of vcore/src/cpu/syscall.rs find the kernel, and what they
-- rely on in a file system.
use vyper.Prelude.{
  ℕ, ◌≡◌, ap, sym, ◌∙◌, ◌==◌, Bool, true, false, some, none, ok, err, panic, stuck, get_elem?,
  arith, inl, inr, Bytes, [], ◌∷◌, Bool-cases,
}
use mathlib.Core.Option.{some-injective}
use mathlib.Core.Path.{subst}
use vyper.Vfs.Types.{VfsResult, OpenFlags}
use vyper.Vfs.Fd.{FdTable, FdKind}
use vyper.Vfs.Fd.Laws.{IsValid}
use vyper.Vfs.FilePath.Utf.{IsText}
use vyper.Vfs.Mounts.{Mount, Vfs, dispatch, dispatch_bytes}
use vyper.Vfs.Mounts.Order.{IsValid as Sorted}
use vyper.Vfs.Mounts.Dispatch.{dispatch_lem, Reaches}
use vyper.Vfs.Mounts.Slices.{Each, EndsAscii, dispatch_bytes-dispatch}
use vyper.Keyboard.Inv.{IsValid as KeyboardIsValid}
use vyper.Sched.Task.{Task}
use vyper.Syscall.State.{Filesystem, Devices, Machine, after_drop}
use vyper.Syscall.Tables.{Runs}

-- No panic; only a call that waits for a key may wait for ever; and a value is as it should be.
abbrev pub Meets : {A : Type 0} → Bool → (A → Type 0) → VfsResult A → Type 0
Meets waits P (ok a) = P a
Meets waits P (err e) = Unit
Meets waits P panic = ⊥
Meets waits P stuck = waits ≡ true

abbrev pub Ends : {A : Type 0} → Bool → VfsResult A → Type 0
Ends waits r = Meets waits (λ a. Unit) r

-- The mounts: sorted and distinct, each path with an ASCII character at its end, and each file
-- system in a state that it keeps.
pub record Housed {F : Type 0} (Good : F → Type 0) (ms : Vfs F) : Type 0 where
  pub sorted : Sorted ms
  pub paths : Each (λ m. EndsAscii m.path) ms
  pub good : Each (λ m. Good m.fs) ms

-- What the calls rely on: from the states that it keeps, a file system returns, and from those and
-- for the handles that it has made, a handle does, also when it is dropped.
pub record Answers {F H : Type 0} (fs : Filesystem F H) (Good : F → Type 0) (Held : H → Type 0)
    : Type 0 where
  pub opens :
      (flags : OpenFlags) (f : F) (path : Bytes)
      → Good f
      → Meets false Held (fs.open_file flags f path).0 × Good (fs.open_file flags f path).1
  pub makes :
      (f : F) (path : Bytes) → Good f → Ends false (fs.mkdir f path).0 × Good (fs.mkdir f path).1
  pub removes :
      (f : F) (path : Bytes) → Good f → Ends false (fs.remove f path).0 × Good (fs.remove f path).1
  pub removes_dir :
      (f : F) (path : Bytes) → Good f → Ends false (fs.rmdir f path).0 × Good (fs.rmdir f path).1
  pub lists :
      (f : F) (path : Bytes)
      → Good f
      → Ends false (fs.readdir f path).0 × Good (fs.readdir f path).1
  pub describes :
      (f : F) (path : Bytes)
      → Good f
      → Ends false (fs.metadata f path).0 × Good (fs.metadata f path).1
  pub reads :
      (h : H) (n : ℕ) (ms : Vfs F)
      → Held h
      → Housed Good ms
      → Ends false (fs.read h n ms).0.0 × Held (fs.read h n ms).1 × Housed Good (fs.read h n ms).2
  pub writes :
      (h : H) (bytes : Bytes) (ms : Vfs F)
      → Held h
      → Housed Good ms
      → Ends false (fs.write h bytes ms).0
        × Held (fs.write h bytes ms).1
        × Housed Good (fs.write h bytes ms).2
  pub releases :
      (h : H) (ms : Vfs F)
      → Held h
      → Housed Good ms
      → Ends false (fs.release h ms).0 × Housed Good (fs.release h ms).1

module _ {H : Type 0} (Held : H → Type 0) where
  abbrev pub HeldKind : FdKind H → Type 0
  HeldKind (FdKind.file h) = Held h
  HeldKind _ = Unit

  abbrev pub AllHeld : FdTable H → Type 0
  AllHeld [] = Unit
  AllHeld (none ∷ fds) = AllHeld fds
  AllHeld (some kind ∷ fds) = HeldKind kind × AllHeld fds

  -- A table as the calls leave it.
  pub record Tidy (fds : FdTable H) : Type 0 where
    pub valid : IsValid fds
    pub held : AllHeld fds

pub record Sound {F : Type 0} (Good : F → Type 0) (d : Devices F) : Type 0 where
  pub housed : Housed Good d.vfs
  pub keys : KeyboardIsValid d.keyboard

pub record Ready {F H S : Type 0} (Good : F → Type 0) (Held : H → Type 0) (s : Machine F H S)
    : Type 0 where
  pub task : Task (FdTable H) S
  pub runs : Runs s task
  pub table : Tidy Held task.fds
  pub stands : IsText task.cwd
  pub devices : Sound Good s.devices

pub weaken : {A : Type 0} (waits : Bool) (r : VfsResult A) → Ends false r → Ends waits r
weaken waits (ok a) h = h
weaken waits (err e) h = tt
weaken waits panic h = h
weaken waits stuck h = absurd (cc h)

-- What is dropped ends, and so the result stands.
pub after_drop-Ends :
    {A : Type 0} (r : VfsResult A) (dropped : VfsResult (Unit {0}))
    → Ends false r
    → Ends false dropped
    → Ends false (after_drop r dropped)
after_drop-Ends r (ok u) h k = h
after_drop-Ends r (err e) h k = h
after_drop-Ends r panic h k = k
after_drop-Ends r stuck h k = absurd (cc k)

module _ {F A : Type 0} {Good : F → Type 0} (P : A → Type 0) where
  dispatch-Housed :
      (ms : Vfs F) (path : Bytes) (method : F → Bytes → VfsResult A × F)
      → ((f : F) (below : Bytes)
          → Good f
          → Meets false P (method f below).0 × Good (method f below).1)
      → Housed Good ms
      → Meets false P (dispatch ms path method).0 × Housed Good (dispatch ms path method).1
  dispatch-Housed ms path method h v = elim (dispatch_lem ms path method v.sorted) [
    | inl (i, relative, m, covers, r) ↦ (
      rw (r.returned) (h m.fs relative (v.good i m r.here)).0,
      record {
        sorted = r.valid;
        paths = λ j n e. (at i relative m r j n e).0;
        good = λ j n e. (at i relative m r j n e).1;
      },
    )
    | inr (absent, e) ↦ rw e (tt, v)
  ]
    where
      at :
          (i : ℕ) (relative : Bytes) (m : Mount F)
          → Reaches ms path method i relative m
          → (j : ℕ) (n : Mount F) → get_elem? (dispatch ms path method).1 j ≡ some n
          → EndsAscii n.path × Good n.fs
      at i relative m r j n e = elim (Bool-cases (i == j)) [
        | inl hit ↦
            let same : i ≡ j = ground arith in
            let new : Mount F = record m { fs = (method m.fs relative).1 } in
            let is : new ≡ n =
              some-injective new n
                (sym r.updated ∙ ap (get_elem? (dispatch ms path method).1) same ∙ e) in
            subst (λ (k : Mount F). EndsAscii k.path × Good k.fs) is
              (v.paths i m r.here, (h m.fs relative (v.good i m r.here)).1)
        | inr other ↦
            let before = sym (r.others j (ground arith)) ∙ e in
            (v.paths j n before, v.good j n before)
      ]

  -- A call on a text ends, and leaves the mounts as they should be.
  pub dispatch_bytes-Housed :
      (ms : Vfs F) (path : Bytes) (method : F → Bytes → VfsResult A × F)
      → ((f : F) (below : Bytes)
          → Good f
          → Meets false P (method f below).0 × Good (method f below).1)
      → IsText path
      → Housed Good ms
      → Meets false P (dispatch_bytes ms path method).0
        × Housed Good (dispatch_bytes ms path method).1
  dispatch_bytes-Housed ms path method h text v =
      rw (dispatch_bytes-dispatch ms path method text v.paths) (dispatch-Housed ms path method h v)
