-- ===== src/Lib.antt =====
-- A model of the vyper kernel and of what its user library relies on, with theorems about it.
--
-- The program. A kernel (vcore/src) drives the hardware, keeps the physical pages, runs tasks
-- round robin, and serves files: mounted file systems answer for the paths below them, a task
-- reaches them through its table of open files, and a directory is handed to user code as a buffer
-- of records, which the user library (user/vlib/src) takes apart. A disk is a block device, a
-- partition of it is one too, and the FAT32 volume stands on a partition.
--
-- The files.
-- - Prelude: lists, bits, digits, bytes, and `Result`, where `panic` is a Rust panic and `stuck` a
--   model that ran out of fuel, or a wait that never ends.
-- - Keyboard: vcore/src/drivers/keyboard.rs. `Keyboard` is the ring with the modifier keys.
-- - Vfs.Types, Vfs.Fd: vcore/src/vfs/types.rs and fd.rs.
-- - Vfs.FilePath, Vfs.Mounts: vcore/src/vfs/mod.rs, the paths and the table of mounts. A file
--   system there is a parameter: `dispatch` takes the method that is called, and a call returns
--   the state of the file system after it. `dispatch_bytes` is the same on a path of bytes that
--   nothing has checked to be UTF-8, where a slice inside a character panics.
-- - Vfs.Cursor: reading, writing and seeking in a vector of bytes, as the handles of tmpfs.rs do.
-- - Vfs.TmpFs: vcore/src/vfs/tmpfs.rs. The tree of nodes is passed and returned.
-- - Dents: SYS_GETDENTS of vcore/src/cpu/syscall.rs, `DirEntryIter` of user/vlib/src/syscalls.rs,
--   and the loop of user/shell/src/commands/ls.rs.
-- - Pmm: vcore/src/mem/pmm.rs, the operations of the bitmap.
-- - Sched: vcore/src/sched/mod.rs and task.rs. The code behind the lock of `schedule` is a
--   function of the tick and the queue that returns the switch to make. `reaped` are the tasks
--   that it removes: their open files are dropped with them, which SYS_EXIT shows.
-- - Syscall: `syscall_handler` of vcore/src/cpu/syscall.rs, which composes the parts. A `Machine` is
--   the scheduler with what the calls change besides: the mounts, the keyboard, the terminal, and
--   the memory of the user. `Filesystem` holds the methods of the mounted file systems and of their
--   handles, `release` for the drop of a handle among them; `syscall_handler` gives how the call
--   ends and the machine after it. Syscall.InMemory fills `Filesystem` from tmpfs. Syscall.Input is
--   the wait for a key and the loop that reads a line, with the scan codes that arrive meanwhile.
-- - Shell: user/shell/src/input.rs. The keys that `getch` gives are a list.
-- - Block.Device, Block.Table, Block.DevFs: vcore/src/vfs/block/mod.rs and partition.rs. A block
--   device is a record of operations on a state, and `Lawful` says what a device promises.
-- - Fat: vcore/src/vfs/fat32.rs. Fat.Bpb, Fat.Entry and Fat.Long are its records, and Fat.Table
--   reads and sets entries of the allocation table on any block device. Fat.Volume is what the rest
--   stands on, with the laws that a working volume keeps, and Fat.Cluster fills it from a device.
--   Fat.Chain: the chains of clusters. Fat.Name: short names. Fat.Dir: the bytes of a directory.
--   Fat.Fs: lookups and changes of directories. Fat.Handle, Fat.Calls: open files and the calls.
--
-- Bounds. Numbers are natural numbers. Where the code wraps, the model writes the remainder:
-- 32-bit sector numbers, the counter of free pages, identifiers and ticks. Indices, lengths and
-- positions of vectors are below 2^63, which the memory of a machine ensures. A text is the list
-- of its bytes; the texts of FAT32 are lists of characters, with the case mappings of Unicode as
-- parameters. The loops of a reader of directories have fuel: one round more than entries is enough,
-- and a round over a buffer has its length. A loop over a chain of FAT32 has fuel: a round for each
-- cluster is enough where the chain has an end, and no number is where it has none.
--
-- Not modelled: the hardware (interrupts, descriptor tables, APIC, ATA ports, the switch of
-- stacks), page tables, the framebuffer and its font, the heap, and the loader of programs. Of
-- the rest, `init` of the page allocator, memfs and tasksfs, the terminal, and the commands of
-- the shell are left. In the system calls, the address of a buffer does not wrap, and an access to
-- memory that is not mapped, which faults, is not a case. A volume of FAT32 with 0 sectors in a
-- cluster, where the source divides by 0, is not a case either.
pub mod Prelude
pub mod Keyboard
pub mod Vfs
pub mod Dents
pub mod Pmm
pub mod Sched
pub mod Block
pub mod Fat
pub mod Syscall
pub mod Shell
