-- ===== src/Syscall/Memory.antt =====
-- The user's memory as SYS_READ, SYS_WRITE and the calls that take a path see it in
-- vcore/src/cpu/syscall.rs: a byte at each address, read and written through raw pointers.
use vyper.Prelude.{
  ℕ, zero, suc, ◌+◌, ◌-◌, ◌<◌, ◌≡◌, refl, ◌&&◌, [], ◌∷◌, Bytes, leb, ltb, if◌then◌else◌, length,
  get_or, arith,
}
use mathlib.Core.Path.{ap₂}

abbrev pub Memory : Type 0
Memory = ℕ → ℕ

-- `slice::from_raw_parts`, and `*buf.add(i)` for `i` below a length
unfoldable pub load : Memory → ℕ → ℕ → Bytes
load memory ptr zero = []
load memory ptr (suc len) = memory ptr ∷ load memory (ptr + 1) len

-- `copy_nonoverlapping` of bytes to an address, and `*buf.add(i) = c` for each of them
unfoldable pub store : Memory → ℕ → Bytes → Memory
store memory ptr bytes =
    λ a. if leb ptr a && ltb a (ptr + length bytes) then get_or bytes (a - ptr) 0 else memory a

load_agrees :
    (memory : Memory) (bytes : Bytes) (ptr : ℕ)
    → ((i : ℕ) → i < length bytes → memory (ptr + i) ≡ get_or bytes i 0)
    → load memory ptr (length bytes) ≡ bytes
unfolding load
load_agrees memory [] ptr h = refl
load_agrees memory (b ∷ bytes) ptr h =
    ap₂ ◌∷◌ (let at : ptr ≡ ptr + 0 = omega arith in rw at (h 0 (omega arith))) (
      load_agrees memory bytes (ptr + 1) (λ i l.
        let at : ptr + 1 + i ≡ ptr + suc i = omega arith in rw at (h (suc i) (omega arith))))

store_at :
    (memory : Memory) (ptr : ℕ) (bytes : Bytes) (i : ℕ)
    → i < length bytes
    → store memory ptr bytes (ptr + i) ≡ get_or bytes i 0
unfolding store
store_at memory ptr bytes i h = ground arith

-- What was stored is read back.
pub load-store :
    (memory : Memory) (ptr : ℕ) (bytes : Bytes)
    → load (store memory ptr bytes) ptr (length bytes) ≡ bytes
load-store memory ptr bytes =
    load_agrees (store memory ptr bytes) bytes ptr (store_at memory ptr bytes)
