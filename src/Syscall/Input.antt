-- ===== src/Syscall/Input.antt =====
-- The reads of standard input in vcore/src/cpu/syscall.rs: the wait for a key, and the loop that
-- empties the keyboard up to the end of a line. Interrupts stay on: `batches` lists the scan codes
-- that arrive before each access of the keyboard, in their order.
use vyper.Prelude.{ℕ, zero, suc, Option, none, some, List, [], ◌∷◌, Bytes, ◌==◌, if◌then◌else◌}
use vyper.Keyboard.{Keyboard, handle_scancode, has_input, read_char}

abbrev pub Batches : Type 0
Batches = List (List ℕ)

abbrev pub newline : ℕ
newline = 10

unfoldable pub arrive : Keyboard → List ℕ → Keyboard
arrive kb [] = kb
arrive kb (scancode ∷ codes) = arrive (handle_scancode kb scancode) codes

-- `while !keyboard::has_input() { hlt() }`; `none` where no key ever comes.
unfoldable pub wait : Keyboard → Batches → Option (Keyboard × Batches)
wait kb [] = if has_input kb then some (kb, []) else none
wait kb (batch ∷ batches) =
    let kb' = arrive kb batch in
    let later = wait kb' batches in if has_input kb' then some (kb', batches) else later

-- The keyboard at its next access, and the batches that are left.
abbrev pub arrived : Keyboard → Batches → Keyboard × Batches
arrived kb [] = (kb, [])
arrived kb (batch ∷ batches) = (arrive kb batch, batches)

-- The `while count < len` loop: the characters that it reads.
unfoldable pub read_keys : ℕ → Keyboard → Batches → Bytes × Keyboard × Batches
read_keys zero kb batches = ([], kb, batches)
read_keys (suc n) kb batches =
    let (o, kb') = read_char (arrived kb batches).0 in
    elim o [
      | none ↦ ([], kb', (arrived kb batches).1)
      | some c ↦
          (let (rest, kb'', later) = read_keys n kb' (arrived kb batches).1 in
            if c == newline then (c ∷ [], kb', (arrived kb batches).1) else (c ∷ rest, kb'', later))
    ]

-- Both, as the call for descriptor 0 has them.
unfoldable pub read_stdin : ℕ → Keyboard → Batches → Option (Bytes × Keyboard × Batches)
read_stdin len kb batches = elim (wait kb batches) [
  | none ↦ none
  | some (kb', later) ↦ some (read_keys len kb' later)
]
