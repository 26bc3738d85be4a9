-- ===== src/Lib.antt =====
-- The core of InkDB: its pages, its index pages, its page table with the latch of an entry,
-- and the frames that hold pages in memory.
--
-- A page is a block of 4096 bytes. A slotted page (`src/page/slotted_page.rs`) has a header of 24
-- bytes, a directory of slots that grows up from it, cells that grow down from the end or from a special
-- area, and free space between the two. An index page (`src/page/internal_page.rs`) is a slotted page
-- whose special area holds its right sibling, whose first cell is the high key and whose other cells lead
-- to children. `src/page/mod.rs` has what the pages share: reads and writes of little-endian integers,
-- the type, the kind and the flags of a page. The page table of
-- `src/buffer/page_table.rs` leads from a page's number to an entry, whose latch
-- (`src/buffer/page_table_latch.rs`) lets many threads ask for the page and one of them load it.
--
-- - Base, and its children: the names that every module shares; tests on numbers; lists with `length`,
--   `take`, `insert_at` on the native numbers; tables over all bytes.
-- - Mem: the raw page as a function from offsets to bytes, `read_u16_le_unsafe` and its like, on a
--   little-endian machine, and copies of ranges; Mem.Slices:
--   the accessors that check the length of a slice. Outcome checks the bounds of every access.
-- - Outcome: what a method does to a page. It returns `Ok` or `Err` with the page as the method left
--   it (so an error leaves its partial changes behind), or is a fault: a panic, or an access that
--   would be undefined behaviour. `Profile` is the build: in `debug` an assertion for debug builds and
--   the overflow of an integer panic, in `release` the one is not there and the other wraps. Outcome.Raw
--   has a rule for each way to build a method, for what a method keeps.
-- - Page, Page.Kind, Page.Flags: `PageID`, `PageKind`, `PageType`, `PageStates`, `PageFlags`.
-- - Slotted.Header, Slotted.Dir, Slotted.Cells: the methods of `SlottedPageMut`, by their names, on the
--   header, on the slot directory and on cells. A method that takes `&mut self` or `&self` is a function
--   from a page to an outcome, and `?` is the bind. The `SlottedPageMut` and `SlottedPageRef` around the
--   bytes are the bytes.
-- - Slotted.Ref, and its children: the methods of `SlottedPageRef`, which repeat those of
--   `SlottedPageMut` that read, what they share with these, and the reading of all cells.
-- - Slotted.Layout: the well-formed page and its list of cells, which is what a page is to its callers.
--   Slotted.Effect, Place, Extend, Words, Added: what the methods do to the bytes, to the words of the
--   header and to the entries. Slotted.Insert, Read, Init, PageEnd: what they do to the list of cells.
--   Slotted.Fields: the setters of the type, the flags and the log sequence number. Slotted.Api, and its
--   child: all that a page does for its callers, in any order. Slotted.Corrupt: pages of which only the
--   header is as the methods keep it. Slotted.Raw, Index.Raw: the range of the
--   bytes in a page, which the code has by its type.
--   Slotted.Refine: a page as a list of cells and a number of free bytes, over sequences of calls.
-- - Index.Cell, Index.Header, Index.Sibling, Index.Ref, Index.Find: `IndexCellOwned`, `IndexCell`,
--   `IndexPageMut`, `IndexPageRef`. Index.Layout: the well-formed index page. Index.Route is the search
--   for a child against its description, Index.Sorted the same on ascending keys, Index.Ends that its loop
--   ends; Index.Fresh, Grow, Link, Level: what the methods that change a page do; Index.Edit: calls that
--   add cells or set the sibling or the level, whatever they return; Index.Added: a search before and
--   after a new cell; Index.Bulk: a new page that is filled, and the searches on it;
--   Index.Corrupt: a search on a page with a wrong key length; Index.Order: the order of keys; Index.Split:
--   a new page with a high key and a sibling, and the searches on the two; Index.Api, and its children: all
--   that an index page does for its callers, in any order.
-- - Latch: `PageTableLatch`, a step relation on the latch and the program counters of its threads; the
--   closure of each thread is a parameter, which succeeds, fails or panics. Latch.Inv is the invariant, Latch.Moves that a step keeps it,
--   Latch.Safety and Latch.Stall what follows from it, Latch.Spin the rounds of a thread that waits. Latch.Alone runs one thread by itself, and
--   Latch.Progress uses it for what a thread in `load` can still do; Latch.Race is `peek` beside
--   `load`. Latch.Order adds which accesses of the data happen before which, by the memory orders of the
--   code; Latch.Order.Synced has what follows.
-- - Buffer.Table: `PageTableEntry` and `NaiveMappingTable` (`src/buffer/page_table.rs`); a handle is the
--   address of an entry, and the hash map of the standard library the list of its pairs. `get` and
--   `insert` hold the lock of the table for the whole call, so a call is one step.
--   Buffer.Table.Interface: the trait `PageTable`, which the naive table implements;
--   Buffer.Table.View: that table without the order of its pairs.
--   Buffer.Table.World: threads that `get` handles and call `load` on their entries, which many may share,
--   while handles are inserted; Buffer.Table.Shared: what they get; Buffer.Table.Twice: a page that is
--   given a second handle; Buffer.Table.Progress, with Carry: how a thread that asks for a page goes on.
-- - Buffer.Frame: `PageFrame` and its guards (`src/buffer/page_frame.rs`), with threads that call `read`
--   and `write`. A closure is a list of accesses to the page that may end with a panic; a step is one
--   access. The lock is the standard library's `RwLock`, by its documentation: readers share it, a writer
--   has it alone, and a writer's panic poisons it.
--   Buffer.Frame.Inv, Serial, Poison: its invariant, what readers see, and what a panic leaves behind.
--   Buffer.Frame.Settle, Progress: how the threads end their calls and get the lock; a thread makes one call
--   at a time, and none inside its closure. Buffer.Frame.Pages, Nodes: frames with index
--   pages, and what their readers find after the calls of the writers.
-- - Tree: `BInner` and `traverse` (`src/tree/btree_base.rs`), with the structs of the transactions, the
--   meta data and the cache, and the trait `PageCache`.
-- - Tests: the operations at concrete inputs; Tests.Own: the tests of the code that run on one thread;
--   Tests.Threaded: what the threads get in the others.
--
-- The loop of `find_child_ptr` over the slots runs on fuel, the number of slots and one: an iteration takes
-- one slot, and the last one finds that there is none, so the fuel is enough
-- (Index.Ends). The other loops are structural.
--
-- Not modelled: `memory_used`, which is unfinished and does not compile; the values that a weak memory
-- could give the latch's threads where their accesses race, which are those of `peek` only
-- (Latch.Order.Synced, Latch.Race); and the times that the tests measure. The trait `PageCache`, which
-- nothing implements yet, and the tree's `traverse`, which is a stub, have no theorem.
pub mod Base
pub mod Mem
pub mod Outcome
pub mod Page
pub mod Slotted
pub mod Index
pub mod Latch
pub mod Buffer
pub mod Tree
mod Tests
