-- ===== src/Lib.antt =====
-- Verification of the mankoros kernel, a kernel in Rust for RISC-V with paging.
--
-- The parts that are modelled are the memory of a process, the FAT32 file system down to the disk, paths,
-- pipes, the tables of open files, locks and times. An address space is a map of ranges
-- (src/process/user_space/range_map.rs) from addresses to areas (src/process/user_space/user_area.rs). A
-- page fault looks up the area, takes a frame, counted in src/memory/frame_ref_cnt.rs, and writes
-- a page table entry (src/memory/pagetable/pte.rs) through the three levels of
-- src/memory/pagetable/pagetable.rs; addresses and pages are in src/memory/address.
--
-- Base: Boolean tests, lists, calls that may panic, and machine arithmetic: `Run` is the result of a
--   call that may panic, and an overflow of `usize` panics, as in the debug build of the Makefile.
-- BTreeMap: what the kernel uses of the map of the standard library, as the ordered list of its entries.
-- Address: VirtAddr, VirtAddr4K, VirtPageNum and the physical ones, each as its number, the kernel's own
--   mappings, and `iter_vpn` as the list of the pages that it visits.
-- Pte: PTEFlags as a record and PageTableEntry as its 64 bits.
-- PageTable: the tables of three levels in the physical memory, by their addresses. The allocator takes
--   the frames of a list of picks in turn. PageTable.Tree says that each table in use stands at one
--   place of the tree, and PageTable.Refine compares the operations with those on a map from page
--   numbers to entries, which is what UserSpace.Fault sees of a page table. PageTable.Copy is the copy for a
--   fork. The loops over a region run on fuel: the pages of the size, and two.
-- Frame: the reference counts and the frames that the allocator holds. The bitmap is another crate; the
--   frame that it picks is an argument.
-- RangeMap: `RangeMap<U, V>` at natural-number addresses. Closures that change a value return what they
--   leave; what `release` is called with is logged. RangeMap.View says what a map says of each address,
--   with a function that gives the meaning of a value at an address, so that a split that moves a
--   file offset is the same map. The removal loop runs on fuel: one more than the number of entries.
-- UserSpace: UserAreaPerm, UserArea, UserAreaManager and the page fault. Files and shared memories are
--   of any type, and the file system's `get_page` is an argument of the fault. The page table is a map
--   from page numbers to valid entries, with what tables of the lower levels there are. `take_range` is the call
--   of the map in `unmap_range`, and `release_log` the closure it is given. UserSpace.Stack is `init_stack` of
--   src/process/user_space/mod.rs, on a memory of bytes.
-- Fat: the FAT table of src/fs/nfat32/fs.rs as the list of its entries, the clusters of a file in memory
--   (src/fs/nfat32/tools.rs) and the arithmetic of sectors. `chain` runs on fuel, for which the length
--   of the chain is enough.
-- Dir: the directories of src/fs/nfat32/dir.rs. An entry is its 32 bytes; the entries of a sector stand on the
--   disk, a function, so that a loaded sector is its number; the next sector of the chain and an appended one
--   are arguments. `create_entry` and `delete_entry` change the disk. `mark_next` runs on fuel for the
--   entries that are left.
-- Disk: the cursors of src/fs/disk.rs and src/fs/partition.rs; the device is the bytes of its blocks and how it answers
--   each call, by the number of the call: any may fail, and what a failed write leaves in its block is open. The loop
--   of `sync_write_at` runs on fuel for each byte of the buffer, and one.
-- Pipe: src/fs/npipe.rs, the pipe with its ends. The ring buffer is of another crate, and is the list of
--   its bytes.
-- Lock: SleepLock of src/sync/sleep.rs as the steps of its tasks, which are polled when they are woken or without
--   it, as `block_on` of src/executor/mod.rs does, and Mutex of src/sync/mutex.rs as
--   the accesses of its harts, in any order.
-- Process: the table of open files and the table of shared memory of src/process/lproc.rs. The search of `dup`
--   runs on fuel: the recycled numbers, the new ones up to the bound, and one.
-- Timer: TimeSpec, TimeVal and TimeStat of src/timer; the clock is an argument.
--   Timer.Sleep is the queue of src/timer/async_sleep.rs; the heap is the list of its nodes, and waking
--   runs on fuel: the nodes, and one.
-- VfsPath: `Path` of src/fs/new_vfs/path.rs, over strings as lists of bytes.
-- Pid: the pool of identifiers, src/tools/handler_pool.rs.
-- Syscall: brk, mmap, munmap and mprotect of src/syscall/memory.rs, on their arguments; the table of open
--   files is a function.
-- Errors: the Linux error codes.
-- Tests: the theorems at concrete inputs.
--
-- Not modelled: the drop of the tables of a page table, the walks of
-- src/fs/nfat32/file.rs over directories, the other file systems, threads and events, drivers, traps, the
-- boot code and the other system calls, which stand above or below these parts.
pub mod Base
pub mod Errors
pub mod BTreeMap
pub mod Address
pub mod Pte
pub mod Frame
pub mod PageTable
pub mod RangeMap
pub mod UserSpace
pub mod Fat
pub mod Dir
pub mod Timer
pub mod Lock
pub mod Pipe
pub mod Disk
pub mod Pid
pub mod Process
pub mod VfsPath
pub mod Syscall
pub mod Tests
