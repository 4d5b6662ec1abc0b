-- ===== src/Lib.antt =====
-- Linux 0.11 in C, the core of the kernel. Paths are below linux-0.11/ of the repository.
--
-- The parts, and how they interact. The memory manager owns the page map and the page tables; the
-- scheduler owns the task table, and the timer interrupt drives it through the counters; processes
-- send each other signals and wait for each other, and sleep on wait queues; the bitmaps say which
-- zones and inodes of a disk are in use, and requests for its blocks go through queues that the
-- drivers empty; pipes and open files are what the processes do input and output with. What is typed goes
-- through the queues of a terminal and its line discipline; what is written goes through them to the
-- console, which keeps the screen in the memory of the display. A system call
-- or an interrupt is a function from the state of its part to a result and a new state, or to a stop
-- of the machine (`panic`), of the process (`oom`, `exited`) or to a sleep (`asleep`), by the type
-- Kernel of Prelude/Run.
--
-- Files and code:
--   Prelude: lists read as C arrays, words of 32 bits with their wrap-around and signed order,
--     and computations that may stop.
--   Mm/Pages: mm/memory.c, the page map. The record Mm has `mem_map`, HIGH_MEMORY and the memory,
--     as a function from an address to the word there. get_free_page, free_page, mem_init and the
--     count of calc_mem have the names of the source; Alloc, Free and Init have the proofs.
--   Mm/Tables: mm/memory.c, the two levels of page tables, with the directory at address 0.
--     put_page, un_wp_page, do_wp_page, write_verify, get_empty_page, free_page_tables and
--     copy_page_tables, with their loops as functions on the number of entries left; Walk, Put,
--     Protect and Fork have the proofs.
--   Mm/Faults: mm/memory.c, try_to_share, share_page and do_no_page, on Mm and the fields of the
--     tasks that they read; Entries, Table, Guards and Share have the proofs.
--   Kernel/Sched: kernel/sched.c, `schedule`, sys_nice and sys_alarm. The record Task has the fields
--     of task_struct that they use, and `task[NR_TASKS]` is a list of optional tasks. Pick and
--     Choice have the proofs.
--   Kernel/Timer: kernel/sched.c, add_timer and do_timer, on the list from `next_timer`; Due, Expiry
--     and Slice have the proofs.
--   Kernel/Mktime: kernel/mktime.c, with a signed result, and in Calendar the count of days that it is compared with.
--   Kernel/Print: kernel/vsprintf.c, skip_atoi and number, on strings as lists of character codes;
--     Digits, ReadBack and Width have the proofs.
--   Kernel/Process: include/linux/sched.h and signal.h, the records of a process and of a signal's
--     action, as the modules that use them need them.
--   Kernel/Users: kernel/sys.c, the calls on ids, times and groups; Ids has the proofs.
--   Kernel/Signals: kernel/signal.c, the calls on masks and actions, and do_signal; Deadly has the
--     proofs.
--   Kernel/Exit: kernel/exit.c, send_sig, sys_kill, kill_session, release, tell_father and
--     sys_waitpid. free_page and schedule are arguments of release; Send, Kill,
--     Children and Wait have the proofs.
--   Kernel/Wait: kernel/sched.c, sleep_on, interruptible_sleep_on and wake_up. A sleep is two steps,
--     since the scheduler runs others between them; Lost has the step relation and the proofs.
--   Block/Requests: kernel/blk_drv/ll_rw_blk.c and end_request of blk.h. The record Block has
--     `request`, `blk_dev` and the buffers; Elevator and Queues have the proofs.
--   Chr/Console: kernel/chr_drv/console.c, with the static variables as the record Console, whose
--     field `word` is the memory of the display. Edit has what changes the screen, Write the parser
--     of con_write and con_init. Layout, Scroll, Editing, Printing, Sequences, Safe and Screen have
--     the proofs.
--   Chr/Terminal: kernel/chr_drv/tty_io.c and the macros of include/linux/tty.h, with copy_to_cooked
--     and tty_intr; Read has tty_read and tty_write. `write` of a terminal is a parameter, a
--     function on the terminal, and IsDriver what the proofs ask of it. Ring,
--     Editor, Cooked, Copy, Lines and Reads have the proofs.
--   Fs/Bitmap: fs/bitmap.c, on maps of 8 blocks for each superblock. The functions of fs/buffer.c are
--     the fields of the record Cache, which the section takes as a parameter; Zero, Bits and Zones
--     have the proofs.
--   Fs/Inode: fs/inode.c, _bmap as bmap_in and create_block, on the fields of m_inode that it uses and on the bytes of
--     the blocks. Zones has the proofs.
--   Fs/Table: the rest of fs/inode.c: `inode_table` as a function from the slot, the inodes of a disk by
--     device, block and place, and what is called of other files as the record Below. Calls has
--     get_empty_inode, get_pipe_inode, iput and iget. Triple has the rules of conditions before and after
--     an action, Stable those for what only cleans, locks and reads; Counts, Uses, Unique, Once and Rounds
--     have the proofs. get_super of fs/super.c is super_of.
--   Fs/Truncate: fs/truncate.c.
--   Fs/Regular: fs/file_dev.c; Bytes has the bytes of a file one by one, and the proofs.
--   Fs/Device: fs/block_dev.c.
--   Fs/Names: fs/namei.c, match as matches, find_entry and add_entry; Entries has
--     the proofs.
--   Fs/Calls: fs/namei.c, the walk over a path as walk, get_dir, dir_namei and namei (Paths),
--     open_namei, sys_mknod and sys_mkdir (Open), empty_dir, sys_rmdir, sys_unlink and sys_link (Links).
--     The table of inodes, the buffers, the search in a directory and permission are the record Files of
--     Interface, an argument of the calls; its laws are in Laws, and the small file system of Tests
--     keeps them. Action has the steps of a call, with early returns as `choose` and tests for null
--     as `when_found`. Moves has what an action takes and leaves of the use counts if
--     it returns; Balance, Opening, Linking, Removal, Balanced and Rounds have the proofs.
--   Fs/Access: permission of fs/namei.c, and sys_utime, sys_access, sys_chmod and sys_chown of
--     fs/open.c; Grants and Owner have the proofs.
--   Fs/Pipe: fs/pipe.c, with the page, the two ends and `i_count` of the inode; Ring, Read, Write
--     and RoundTrip have the proofs.
--   Fs/Files: fs/fcntl.c and sys_close of fs/open.c, on `filp`, `close_on_exec` and `file_table`;
--     Free and Count have the proofs.
--
-- Bounds and fuel. Words are natural numbers below 2 ^ 32, counts of a page below 2 ^ 8 and of a
-- file below 2 ^ 16, with the wrap-around written out; a pointer into an array is an index.
-- `schedule` runs on fuel, its rounds, the loops of a pipe on one round for each byte and one more,
-- and the digits of a number on 32 rounds; for each the theorems say that the loop ends. So they do
-- for file_read and copy_to_cooked, on one round more than bytes and on 1024 rounds, which a queue
-- has no more characters than. tty_read has one round for each byte, and tty_write, file_write and
-- the loops of a block device have more, since each round takes a byte or fills the queue.
-- `empty_dir` has one round for each entry, iget one for each superblock that may be mounted on the
-- way, and iput two, as a written inode is clean. All other loops are structural, on the length that
-- the code gives them.
--
-- Not modelled: interrupts between two steps of a function, the translation buffer of the processor,
-- and the text that is printed. A sleep in a pipe, in sys_waitpid or on a buffer ends the call that
-- is modelled, also in a terminal, where tty_read that waits for the end of a line without sleeping
-- ends as one that sleeps, and a function that a timer calls does not change the list of timers. The
-- buffer cache and get_super stand as parameters of the bitmaps, bmap and bread_page as parameters
-- of the page faults. In the files, the buffers are the bytes of the blocks, and new_block and
-- free_block are parameters, which do not stop the machine in _bmap. The calls on paths take the
-- table of inodes by its laws and not the one of Fs/Table itself, whose counts wrap at 2 ^ 16. A
-- wait for the lock of an inode ends the call. The lists of the buffer cache, mounting, the calls of
-- read_write.c, tty_ioctl.c, exec.c and stat.c, do_exit and fork are not modelled: they join parts
-- that are, or copy fields. The disk drivers, the traps and the start-up code drive devices.
-- `respond` of the console does not call copy_to_cooked, which echoes what is typed by con_write again;
-- a terminal on the console keeps IsDriver as long as nothing echoed asks for that answer.
-- Assembly that the modelled functions have inline stands by what it does, and the registers of the
-- display and the loudspeaker by the values written to them.
pub mod Prelude
pub mod Block
pub mod Chr
pub mod Fs
pub mod Kernel
pub mod Mm
