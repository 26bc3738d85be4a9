-- ===== src/Slotted/Layout.antt =====
-- The layout that the methods keep, and the view of a page as the list of its cells.
--   | header | slot directory, growing upward | free space | cells, growing downward | rest |
-- `lim` is where the cells end: the page's end, or the special area's start.
use ink_db.Base.{ℕ, ◌+◌, ◌-◌, ◌*◌, ◌/◌, ◌%◌, ◌≤◌, ◌<◌, ◌≡◌, List, tabulate, length-tabulate, length}
use ink_db.Mem.{RawPage, page_size, read_bytes, read_le}
use ink_db.Slotted.{SlotEntry, header_size, entry_size}
use ink_db.Slotted.Header.{free_start, free_end}

abbrev pub entry_total : RawPage → ℕ
entry_total m = (free_start m - header_size) / entry_size

abbrev pub entry_base : ℕ → ℕ
entry_base i = header_size + i * entry_size

unfoldable pub entry_at : RawPage → ℕ → SlotEntry
entry_at m i = record {
  offset = read_le 2 m (entry_base i);
  length = read_le 2 m (entry_base i + 2);
}

unfoldable pub cell_at : RawPage → ℕ → List ℕ
unfolding entry_at
cell_at m i = read_bytes m (entry_at m i).offset (entry_at m i).length

-- the cells in the order of the directory
abbrev pub cells : RawPage → List (List ℕ)
cells m = tabulate (entry_total m) (cell_at m)

-- The directory ends before the free space, which ends before the cells; no cell leaves its area.
pub record IsSlotted (lim : ℕ) (m : RawPage) : Type 0 where
  pub start : header_size ≤ free_start m
  pub aligned : free_start m % entry_size ≡ 0
  pub order : free_start m ≤ free_end m
  pub bound : free_end m ≤ lim
  pub limit : lim ≤ page_size
  pub inside :
      (i : ℕ)
      → i < entry_total m
      → (free_end m ≤ (entry_at m i).offset) × ((entry_at m i).offset + (entry_at m i).length ≤ lim)

pub length-cells : (m : RawPage) → length (cells m) ≡ entry_total m
length-cells m = length-tabulate (entry_total m) (cell_at m)
