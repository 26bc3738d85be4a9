-- ===== src/Buffer/Table.antt =====
-- The page table, src/buffer/page_table.rs: entries that start on disk, and the naive table from page
-- numbers to handles of entries.
pub mod Laws
pub mod Interface
pub mod View
pub mod World
pub mod Shared
pub mod Carry
pub mod Progress
pub mod Twice
use ink_db.Base.{
  ℕ, suc, ◌≡◌, Bool, true, false, ◌==◌, ite, ℕ_discrete, Option, none, some, List, [], ◌∷◌,
  if◌then◌else◌,
}
use ink_db.Outcome.{Profile}
use ink_db.Page.{PageId, to_offset}
use ink_db.Latch
use ink_db.Latch.{Latch}

pub data PageTableResult : Type 0 where
  disk memory : ℕ → PageTableResult

-- `PageTableEntry`
pub record PageTableEntry : Type 0 where
  pub state : Latch PageTableResult

-- `PageTableEntry::new`; `none` is the panic of `to_offset` in a debug build.
unfoldable pub new_entry : Profile → PageId → Option PageTableEntry
new_entry p id = elim (to_offset p id) [
  | some offset ↦ some (record { state = Latch.new (disk offset) })
  | none ↦ none
]

-- `PageTableHandle`, an `Arc`: where the entry is. Handles that are equal share their entry.
abbrev pub PageTableHandle : Type 0
PageTableHandle = ℕ

-- `NaiveMappingTable`: the pairs of its map, each page at most once. `PageId` is hashed and compared as
-- its number.
pub record NaiveMappingTable : Type 0 where
  pub entries : List (PageId × PageTableHandle)

unfoldable pub new : NaiveMappingTable
new = record { entries = [] }

-- the value that a map has at a key
unfoldable pub lookup : PageId → List (PageId × PageTableHandle) → Option PageTableHandle
lookup id [] = none
lookup id ((k, h) ∷ rest) = if k == id then some h else lookup id rest

-- The map with a pair more, or another value at its key.
unfoldable pub replace :
    PageId → PageTableHandle → List (PageId × PageTableHandle) → List (PageId × PageTableHandle)
replace id entry [] = (id, entry) ∷ []
replace id entry ((k, h) ∷ rest) =
    if k == id then (id, entry) ∷ rest else (k, h) ∷ replace id entry rest

-- `get`
unfoldable pub get : PageId → NaiveMappingTable → Option PageTableHandle
get id t = lookup id t.entries

-- `insert`, whose result is the table after it
unfoldable pub insert : PageId → PageTableHandle → NaiveMappingTable → NaiveMappingTable
insert id entry t = record { entries = replace id entry t.entries }
