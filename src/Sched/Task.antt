-- ===== src/Sched/Task.antt =====
-- vcore/src/sched/task.rs: the tasks. `F` stands for `FdTable` and `S` for `AddressSpace`. A new
-- task takes the next identifier and the address of its stack, which the heap gives; the words
-- that its constructor writes to that stack are listed from `stack_ptr` up, in place of `_stack`.
use vyper.Prelude.{
  ℕ, ◌+◌, ◌-◌, ◌*◌, ◌/◌, ◌%◌, ◌^◌, Bool, true, false, Option, none, some, List, [], ◌∷◌, Bytes,
}

pub data TaskState : Type 0 where
  ready running sleeping dead : TaskState

pub data TaskMode : Type 0 where
  kernel user : TaskMode

pub record Task (F S : Type 0) : Type 0 where
  pub id : ℕ
  pub name : Bytes
  pub state : TaskState
  pub mode : TaskMode
  pub stack_ptr : ℕ
  pub cr3 : ℕ
  pub kernel_stack_top : ℕ
  pub wake_at : Option ℕ
  pub user_entry : ℕ
  pub user_stack : ℕ
  pub fds : F
  pub cwd : Bytes
  pub address_space : Option S
  pub stack_words : List ℕ

abbrev pub stack_size : ℕ
stack_size = 4096 * 4

-- `stack_top & !0xF`
abbrev pub align_down : ℕ → ℕ
align_down a = a / 16 * 16

abbrev pub root_dir : Bytes
root_dir = 47 ∷ []

-- `NEXT_ID.fetch_add(1)`
abbrev pub next_id : ℕ → ℕ
next_id n = (n + 1) % 2 ^ 64

module _ {F S : Type 0} where
  -- `Task::new`, of the table that `FdTable::new` makes; `trampoline` and `entry` are addresses.
  unfoldable pub new_kernel : F → ℕ → ℕ → ℕ → ℕ → ℕ → Bytes → Task F S × ℕ
  new_kernel fds next stack trampoline entry cr3 name =
      let top = align_down ((stack + stack_size) % 2 ^ 64) in
      (
        record {
          id = next;
          name = name;
          state = ready;
          mode = kernel;
          stack_ptr = (top + (2 ^ 64 - 56)) % 2 ^ 64;
          cr3 = cr3;
          kernel_stack_top = top;
          wake_at = none;
          user_entry = 0;
          user_stack = 0;
          fds = fds;
          cwd = root_dir;
          address_space = none;
          stack_words = entry ∷ 0 ∷ 0 ∷ 0 ∷ 0 ∷ 0 ∷ trampoline ∷ [];
        },
        next_id next,
      )

  unfoldable pub new_user : F → ℕ → ℕ → ℕ → S → ℕ → ℕ → ℕ → Bytes → Task F S × ℕ
  new_user fds next stack trampoline space cr3_value user_entry user_stack name =
      let top = align_down ((stack + stack_size) % 2 ^ 64) in
      (
        record {
          id = next;
          name = name;
          state = ready;
          mode = user;
          stack_ptr = (top + (2 ^ 64 - 56)) % 2 ^ 64;
          cr3 = cr3_value;
          kernel_stack_top = top;
          wake_at = none;
          user_entry = user_entry;
          user_stack = user_stack;
          fds = fds;
          cwd = root_dir;
          address_space = some space;
          stack_words = user_entry ∷ user_stack ∷ 0 ∷ 0 ∷ 0 ∷ 0 ∷ trampoline ∷ [];
        },
        next_id next,
      )

  unfoldable pub kernel_task : F → ℕ → ℕ → Task F S × ℕ
  kernel_task fds next cr3 = (
    record {
      id = next;
      -- "sched"
      name = 115 ∷ 99 ∷ 104 ∷ 101 ∷ 100 ∷ [];
      state = running;
      mode = kernel;
      stack_ptr = 0;
      cr3 = cr3;
      kernel_stack_top = 0;
      wake_at = none;
      user_entry = 0;
      user_stack = 0;
      fds = fds;
      cwd = root_dir;
      address_space = none;
      stack_words = [];
    },
    next_id next,
  )

abbrev pub is_ready : TaskState → Bool
is_ready ready = true
is_ready s = false

abbrev pub is_running : TaskState → Bool
is_running running = true
is_running s = false

abbrev pub is_sleeping : TaskState → Bool
is_sleeping sleeping = true
is_sleeping s = false

abbrev pub is_dead : TaskState → Bool
is_dead dead = true
is_dead s = false
