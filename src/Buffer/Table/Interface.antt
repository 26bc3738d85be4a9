-- ===== src/Buffer/Table/Interface.antt =====
-- What a page table promises to those that use it, the trait `PageTable` (src/buffer/page_table.rs), and
-- the naive table as one. A call holds the lock of the table, so the table is a state that `insert` changes.
use ink_db.Base.{◌≡◌, Option, some, ◌==◌, if◌then◌else◌}
use ink_db.Page.{PageId}
use ink_db.Buffer.Table.{PageTableHandle, NaiveMappingTable}
use ink_db.Buffer.Table
use ink_db.Buffer.Table.Laws.{lookup-replace}

-- The trait, with the law of its two methods: `get` gives the handle that was last inserted.
pub record PageTable (T : Type 0) : Type 0 where
  pub get : PageId → T → Option PageTableHandle
  pub insert : PageId → PageTableHandle → T → T
  pub get-insert :
      (id other : PageId) (h : PageTableHandle) (t : T)
      → get other (insert id h t) ≡ (if id == other then some h else get other t)

-- The naive table keeps the law.
pub naive_get-insert :
    (id other : PageId) (h : PageTableHandle) (t : NaiveMappingTable)
    → Table.get other (Table.insert id h t) ≡ (if id == other then some h else Table.get other t)
unfolding Table.get Table.insert
naive_get-insert id other h t = lookup-replace id other h t.entries

-- `impl PageTable for NaiveMappingTable`
instance abbrev pub naive : PageTable NaiveMappingTable
naive = record { get = Table.get; insert = Table.insert; get-insert = naive_get-insert }
