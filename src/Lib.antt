-- ===== src/Lib.antt =====
-- A model of the JEOS kernel (src/kernel) with proofs of what its components do.
--
-- The parts and the files that model them:
--   Prelude   shared names, Boolean tests, lists over the machine numbers, xor by a power of two,
--             and windows of a circular buffer.
--   Ring      the byte ring of src/kernel/ring.h, which the keyboard and mouse drivers fill and the
--             console empties. `Ring` is `ring_t`; init, putc, write, oldest and read are ring_init,
--             ring_putc, ring_write, ring_start and ring_read. Ring/Inv has the invariant and the
--             contents, Ring/History the bounded history, Ring/Write and Ring/Read the operations.
--   Pipe      the pipes of src/kernel/pipe.c. The kernel holds the pipe's lock for one byte at a
--             time and yields while it waits, so the model has calls in progress and passes:
--             read_pass and write_pass are one round of the loops of pipe_read and pipe_write under
--             the lock, `close` is pipe_close. Pipe/Creation has make_pipe_end and pipe_create,
--             Pipe/System the states that a reader, a writer and the closing of both ends reach in any
--             interleaving; Pipe/Transfer has what then holds, and Pipe/Rounds that taking turns ends.
--   Mem/Buddy the buddy allocator of src/kernel/mem.c: order_for, memset, buddy_remove (`remove`),
--             kfree, kalloc and freerange. A free list is the list of its block addresses; the merging
--             walk that kfree and freerange share is `insert`. Mem/Buddy/Count counts how many free
--             blocks cover an address, in which view allocation and release are exact.
--             Mem/Buddy/Links has where the `next` pointers are written; those of freerange are not
--             followed.
--   Console   the framebuffer console of src/kernel/kconsole.c. `Console` has the static variables of
--             the file; draw_glyph, scroll, clear, init, apply_sgr and putc are fb_draw_glyph,
--             fb_scroll, kconsole_clear, kconsole_init, fb_apply_sgr and kconsole_putc. Console/Frame
--             has the pixel loops, Console/Font the font; Console/Grid and Console/Move say which
--             pixels the loops change, Console/Draw what the operations leave on the screen, and
--             Console/Text and Console/Puts relate the pixels to a grid of characters. Console/Terminal is
--             a terminal with a cursor and two colours, Terminal/Plain and Terminal/Colours relate the
--             characters and the colour sequences to it, and Terminal/Written whole texts.
--   Keyboard  the keyboard half of src/kernel/ps2.c: handle_scancode is kbd_handle_scancode, put_rune
--             kbd_put_rune, kbd_read itself. Keyboard/Tables has the scan code tables, Keyboard/Utf8 a
--             decoder of UTF-8, Keyboard/Typing and Keyboard/Read what reaches a reader, by the laws of
--             the ring, Keyboard/Letters what the letter keys type, and Keyboard/Keys
--             the keys in the scan codes and their text.
--   Path      kstrlen, kstrcmp and kstreq_nlit of src/kernel/string.c, and vfs_comp_eq,
--             vfs_next_component and the walk over the components of src/kernel/vfs.c. Path/Compare is
--             about the comparisons, Path/Walk about the walk.
--   Descriptors  the files of a process: fd_alloc, fd_get and proc_close_fds of src/kernel/proc.c,
--             sys_close, sys_dup and sys_dup2 of src/kernel/syscall.c and the reference counts of
--             src/kernel/vfs.c. Descriptors/Count counts the descriptors of a file, Descriptors/Owned
--             has the invariant, Descriptors/Calls and Descriptors/Exit the calls. Whether a driver's
--             close succeeds is a parameter.
--   Print     the printers of src/kernel/print.c: putdec, puthex_n, puthex, fmt_dec and fmt_hex return
--             the bytes they put. Print/Vprintf has do_vprintf, its arguments as values, and the log
--             lines; Print/Reverse is about the reversal in place, Print/Digits and Print/Hex about the
--             numbers that digits spell, Print/Vprintf/Directives about the reading of a format and
--             Print/Vprintf/Fields about what a directive puts.
--   Ext2      the reading half of src/kernel/ext2.c: read_block, read_inode and block_map are
--             ext2_read_block, ext2_read_inode and ext2_block_map, Ext2/Files has ext2_read and getattr,
--             Ext2/Directory ext2_lookup and ext2_readdir. Ext2/Tree has the trees of pointer blocks as
--             lists and Ext2/BlockMap the walk down them; Ext2/Files/Loading says what a device that
--             answers is, Ext2/Files/Reading and Ext2/Directory/Search what the operations return, and
--             Ext2/Pages which pages they keep. The driver below blk_read is a field of the file system,
--             and the allocator is seen through the number of single pages it still gives.
--   Devices   the device files of src/kernel/devfs.c: register, unregister, find, dir_lookup and
--             readdir_at are devfs_register, devfs_unregister, devfs_find, devfs_dir_lookup and
--             devfs_readdir, over a list of slots. Devices/Names compares the names, Devices/Calls has the
--             registry as a map. Devices/Block has blkdev_read and blkdev_write, whose driver is a
--             parameter, and Devices/Block/Sectors what they move.
--   Initfs    the directories of src/kernel/initfs.c: lookup_dir, mkdir and make_dir are initfs_lookup,
--             initfs_mkdir and initfs_make_dir; whether a page is free for an inode is an argument.
--             Initfs/Directories has the slots as a map from names to inode numbers. Initfs/Driver has
--             the operations as the file system layer calls them, with the pages they take;
--             Initfs/Booting mounts the root, Initfs/Rooted and Initfs/Making are about vfs_mkdir in it,
--             and Initfs/Mounted is about vfs_mkdir and vfs_lookup together.
--   Mouse     the mouse half of src/kernel/ps2.c: mouse_bytes is the loop of mouse_interrupt over the
--             bytes it reads, mouse_read, mousectl_read and mousectl_write are the files, and puti is
--             the printer. Mouse/Reports has what packets put into the ring, Mouse/Integers what puti
--             prints, and Mouse/Moves the moves of a user.
--   Mem/Paging  the page tables of src/kernel/mem.c: ensure is the block that gets or creates a table,
--             map_with is map_page and map_page_pml4, and create_user_pml4, copy_user_pml4,
--             free_user_pml4 and map_mmio have their names. Mem/Paging/Forest says what tables that form
--             trees are, Mem/Paging/Mapping and Mem/Paging/Pages what mapping a page changes, and
--             Mem/Paging/Spaces what a new address space is.
--   Procs     the process table of src/kernel/proc.c: proc_alloc and kstack_setup; Procs/Making has
--             proc_fork, proc_create and proc_exec, Procs/Scheduling sys_exit, yield, a round of sys_wait
--             and a round of scheduler. Procs/Writes breaks all calls into elementary writes, Procs/Calls,
--             Procs/Births and Procs/Moves show which, and Procs/Runs has the runs of any number of processors; Procs/Turns, Procs/Fork,
--             Procs/Reaping and Procs/Start are about the scheduler's order, fork, wait and the first frame.
--             Procs/Loader is elf_load_segments: page_at the contents of a page, load_page a page, and
--             load_pages the two loops over pages; Loader/Segments has what the pages contain,
--             Loader/Missing, Loader/Loaded and Loader/Loading what is mapped, Loader/Enough the pages that it takes,
--             and Loader/Stack the whole with the stack. Procs/Reading is read_elf.
--             Procs/Arguments is setup_user_stack: stack_frame the walk, and lay_out what it writes;
--             Arguments/Bytes is about stores, Arguments/Laid about the whole.
--   Syscalls  sys_brk of src/kernel/syscall.c over the page tables; Syscalls/Heap has what it maps.
--   Vfs       the rest of src/kernel/vfs.c. Vfs has the objects and their counts, Vfs/Lookup vfs_lookup,
--             Vfs/Calls vfs_lookup_parent, the file system types, vfs_mount and vfs_umount, Vfs/Files
--             vfs_open, vfs_read, vfs_write, vfs_seek, vfs_stat, vfs_fstat, vfs_mkdir and vfs_unlink;
--             the operations of the file systems are parameters. Vfs/Walk and Vfs/Parent relate the look-ups, Vfs/Entering
--             and Vfs/Covering are about mounts, Vfs/Registry about the list of the types.
--
-- Numbers: a u32 or u64 is a natural number with its wrap-around written out wherever the code can
-- reach it. A `char` is the number of its byte.
--
-- Fuel: the loop of order_for doubles a u64, so that 64 rounds are enough wherever it ends; the
-- theorem that it does not end elsewhere holds for any fuel. The loop of freerange frees a page at
-- least in each round, so that its fuel is the number of the last page and two more. All other loops
-- count a bounded index down: the digits of a u64 are at most twenty in decimal and sixteen in
-- hexadecimal, do_vprintf has a round for each byte of its format, ext2_read for each byte it is
-- asked for, and a search of a directory for every eight bytes. The path walk has a theorem that a
-- round for each byte of the path and one more are enough.
--
-- Not modelled: the locks themselves, since a section under a lock is one step, and the interrupts that
-- can come to yield before it takes its lock; a pipe with more than one reader or writer at an end; and the other parts of the
-- kernel, the drivers and the hardware accesses among them.
pub mod Prelude
pub mod Ring
pub mod Pipe
pub mod Mem
pub mod Keyboard
pub mod Console
pub mod Path
pub mod Descriptors
pub mod Print
pub mod Ext2
pub mod Devices
pub mod Initfs
pub mod Mouse
pub mod Procs
pub mod Syscalls
pub mod Vfs
