-- ===== src/Lib.antt =====
-- A verification library for testos, an operating system kernel in Rust. It models the parts of the
-- kernel that decide things: addresses and extents, frames and pages, the memory map, the frame
-- allocators, the heap, the page tables, the scheduler, the interrupt tables and controllers, the
-- VGA writer and the loggers.
--
-- How the parts interact: the boot code hands a list of memory regions and the areas of the kernel
-- image to `mark_kernel_areas`, which splits the regions around the areas; `Map::from_entries`
-- stores the result. `fill_bitmap_from_map` turns the available entries into the bitmap of free
-- frames that `BitmapFrameAllocator` searches. The extents of shared/src/memory/addr.rs and the
-- frames of shared/src/memory/page.rs are used by all of these. `Mapper` builds page tables in the
-- frames that an allocator gives it, and reaches them through a translation of addresses; at boot
-- the allocator is the bump allocator. The heap takes its chunks from the frames of the bitmap, in
-- the direct mapping of memory. The scheduler keeps a list of ready tasks; `idt.rs` and `pic.rs`
-- keep the tables through which interrupts reach their handlers.
--
-- Files, and the code that they model:
--   Base               shared helpers: outcomes that may be a panic, machine words, lists, bits
--   Addr               shared/src/memory/addr.rs: `Address`, `Length`, `align_u64_up` and `_down`
--   Extent             shared/src/memory/addr.rs: `Extent`
--   Frame, FrameRange  shared/src/memory/page.rs: `Frame`, `FrameRange`
--   Page, PageRange    shared/src/memory/page.rs: `Page`, `PageRange`
--   MemoryMap          shared/src/memory.rs: `Map`, `MapEntry`, `iter_map_frames`
--   MemoryMap/Marker   shared/src/memory.rs: `KernelAreaMarker`, `mark_kernel_areas`
--   BumpAllocator      shared/src/memory/alloc/phys.rs: `BumpFrameAllocator`
--   BitmapAllocator    shared/src/memory/alloc/phys.rs: `BitmapFrameAllocator`, `find_bit_group`
--   Paging             src/mm/paging.rs: `PageTableEntry`, `PageTableFlags`, `Mapper`
--   Mm                 src/mm.rs: `VirtualMap`, the direct mapping, owned frames, `HeapProvider`,
--                      `create_page_table_template`, `init`
--   FillBitmap         shared/src/memory/alloc/phys.rs: `fill_bitmap_from_map` and its helpers
--   Heap               shared/src/memory/alloc/heap.rs: `Heap`
--   Scheduler          src/sched.rs: the ready list, `yield_current`, `quit_current`, `create_task`
--   Idt                src/idt.rs: the table of interrupts
--   Pic                src/pic.rs: the two interrupt controllers
--   Vga                shared/src/vga.rs: `VgaWriter`
--   Log                shared/src/log.rs: `LogSink`, `LogTee`; src/kmain.rs: the panic handler
--   Tests              runs at concrete inputs, and the theorems at concrete inputs
--
-- How the code is written here: a function that may panic, by an assertion, an `unwrap`, an index
-- or an overflow, returns an `Outcome`. Numbers are natural numbers with the checks of the
-- development profile written out. State that the code mutates is passed on explicitly. An iterator
-- is the list of the items that are still to come. Definitions keep the names of the code, with a
-- helper for the body of a loop or for what follows a test.
--
-- Fuel: `iter` on a range is given the number of its frames, `mark_kernel_areas` the number of
-- regions and areas and one more, `find_bit_group` nine rounds for at most eight shifts,
-- `allocate_small` two calls, the cutting of a chunk one round more than it has blocks, and the
-- walk to the end of the ready list the number of tasks.
--
-- Not modelled: the headers of free blocks in memory, the registers that the assembly of task
-- switches saves, the GDT, the order of the calls at boot, and the programs that build the image.
-- Locks and the disabling of interrupts make each operation one step. The crate x86_64 is a
-- parameter where its table is indexed; ports are a list of writes, and what a port answers is an
-- argument.
pub mod Base
pub mod Addr
pub mod Extent
pub mod Frame
pub mod FrameRange
pub mod Page
pub mod Paging
pub mod Mm
pub mod PageRange
pub mod FillBitmap
pub mod Scheduler
pub mod Heap
pub mod Vga
pub mod Log
pub mod Idt
pub mod Pic
pub mod MemoryMap
pub mod BumpAllocator
pub mod BitmapAllocator
mod Tests
