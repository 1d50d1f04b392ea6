-- ===== src/Keyboard/Refine.antt =====
-- The ring buffer against a queue: what a client of the keyboard can observe.
use vyper.Prelude.{
  ℕ, zero, suc, ◌+◌, ◌-◌, ◌%◌, ◌<◌, ◌≡◌, refl, ◌≢◌, Option, none, some, List, [], ◌∷◌, ◌++◌, arith,
  ltb, if◌then◌else◌, length, get_or, set, get_or-set_self, get_or-set_ne,
}
use mathlib.Core.Path.{ap₂, ap}
use vyper.Keyboard.{Keyboard, push, pop, buffer_size}
use vyper.Keyboard.Inv.{IsValid}

-- The `n` characters of a ring from index `h` on.
abbrev pub ring_from : List ℕ → ℕ → ℕ → List ℕ
ring_from buf h zero = []
ring_from buf h (suc n) = get_or buf h 0 ∷ ring_from buf ((h + 1) % buffer_size) n

abbrev pub pending : Keyboard → ℕ
pending kb = (kb.write_pos + buffer_size - kb.read_pos) % buffer_size

-- The characters that wait, oldest first.
abbrev pub contents : Keyboard → List ℕ
contents kb = ring_from kb.buffer kb.read_pos (pending kb)

pub length-ring_from : (buf : List ℕ) (h n : ℕ) → length (ring_from buf h n) ≡ n
length-ring_from buf h zero = refl
length-ring_from buf h (suc n) = ap suc (length-ring_from buf ((h + 1) % buffer_size) n)

ring_from-set :
    (buf : List ℕ) (c n h i : ℕ)
    → length buf ≡ buffer_size
    → h < buffer_size
    → n < buffer_size
    → i ≡ (h + n) % buffer_size
    → ring_from (set buf i c) h (suc n) ≡ ring_from buf h n ++ (c ∷ [])
ring_from-set buf c zero h i s hh hn e = ap (λ x. x ∷ []) (get_or_here i (omega arith))
  where
    get_or_here : (j : ℕ) → j ≡ h → get_or (set buf i c) h 0 ≡ c
    get_or_here j q =
        let at : i ≡ h = omega arith in rw at (get_or-set_self buf h c 0 (omega arith))
ring_from-set buf c (suc n) h i s hh hn e =
    ap₂ ◌∷◌ (get_or-set_ne buf i h c 0 (omega arith))
      (ring_from-set buf c n ((h + 1) % buffer_size) i s (omega arith) (omega arith) (omega arith))

ring_from_step :
    (buf : List ℕ) (h n : ℕ)
    → n ≢ 0
    → ring_from buf h n ≡ get_or buf h 0 ∷ ring_from buf ((h + 1) % buffer_size) (n - 1)
ring_from_step buf h zero p = absurd (p refl)
ring_from_step buf h (suc n) p = ap (λ k. ring_from buf h (suc k)) (omega arith)

-- A queue that holds one character less than the buffer has places.
abbrev pub enqueue : List ℕ → ℕ → List ℕ
enqueue q c = if ltb (length q) (buffer_size - 1) then q ++ (c ∷ []) else q

abbrev pub dequeue : List ℕ → Option ℕ × List ℕ
dequeue [] = (none, [])
dequeue (c ∷ q) = (some c, q)

pending_suc :
    (r w : ℕ)
    → r < buffer_size
    → w < buffer_size
    → (w + 1) % buffer_size ≢ r
    → (((w + 1) % buffer_size + buffer_size - r) % buffer_size
        ≡ suc ((w + buffer_size - r) % buffer_size))
      × ((w + buffer_size - r) % buffer_size < 255)
pending_suc r w hr hw ne = (omega arith, omega arith)

pending_end :
    (r w : ℕ)
    → r < buffer_size
    → w < buffer_size
    → w ≡ (r + (w + buffer_size - r) % buffer_size) % buffer_size
pending_end r w hr hw = omega arith

-- `push` appends to the queue of waiting characters, and drops the character when 255 wait.
pub contents-push :
    (kb : Keyboard) (c : ℕ) → IsValid kb → contents (push kb c) ≡ enqueue (contents kb) c
unfolding push
contents-push kb c v =
    let n = pending kb in
    ground (
      arith,
      length-ring_from kb.buffer kb.read_pos n,
      pending_suc kb.read_pos kb.write_pos v.read_in v.write_in,
      ring_from-set kb.buffer c n kb.read_pos kb.write_pos v.sized v.read_in,
      pending_end kb.read_pos kb.write_pos v.read_in v.write_in,
    )

-- `pop` takes the oldest.
pub pop_lem :
    (kb : Keyboard)
    → IsValid kb
    → let (o, kb') = pop kb in (o, contents kb') ≡ dequeue (contents kb)
unfolding pop
pop_lem kb v = ground (arith, ring_from_step kb.buffer kb.read_pos (pending kb))
