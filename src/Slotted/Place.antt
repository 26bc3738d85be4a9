-- ===== src/Slotted/Place.antt =====
-- What the methods that add a cell do to a page that is in order (page/slotted_page.rs): no fault, the
-- errors, and the page left.
use ink_db.Base.{ℕ, ◌+◌, ◌-◌, ◌≤◌, ◌<◌, ◌≡◌, List, arith, length, ltb, if◌then◌else◌}
use ink_db.Mem.{RawPage, page_size, write_le, write_bytes}
use ink_db.Mem.Words.{read_le-write_bytes_apart}
use ink_db.Outcome.{store_bytes, ◌>>◌, Profile, debug, release, ok, err, as_u16}
use ink_db.Slotted.{
  Slotted, SlotEntry, no_contigious_space, slot_index_not_in_range, header_size, entry_size,
  free_end_offset,
}
use ink_db.Slotted.Header.{free_start, free_end, set_free_end}
use ink_db.Slotted.Cells.{cell_start, add_cell_append_slot_entry, add_cell_at_slot_entry_index}
use ink_db.Slotted.Effect.{
  appended, shifted, Grown, append_slot_entry_effect, insert_slot_entry_at_index_effect,
  free_start-appended, free_start-shifted,
}
use ink_db.Slotted.Layout.{entry_total}

cell_start_effect :
    (p : Profile) (m : RawPage) (cell : List ℕ)
    → free_start m ≤ free_end m
    → free_end m ≤ page_size
    → cell_start p cell m ≡ (
        if ltb (free_end m - free_start m) (length cell + entry_size)
        then err no_contigious_space m
        else ok (free_end m - length cell) m)
unfolding cell_start
cell_start_effect p m cell a b = ground arith

-- the page with a cell written below `end`, and `free_end` moved to its start
abbrev pub placed : RawPage → ℕ → List ℕ → RawPage
placed m end cell =
    write_le 2 (write_bytes m (end - length cell) cell) free_end_offset (as_u16 (end - length cell))

free_start-write_bytes :
    (m : RawPage) (o : ℕ) (xs : List ℕ)
    → header_size ≤ o
    → free_start (write_bytes m o xs) ≡ free_start m
unfolding free_start
free_start-write_bytes m o xs h = read_le-write_bytes_apart 2 m o xs 12 (omega arith)

set_free_end_effect :
    (p : Profile) (m : RawPage) (n : ℕ)
    → header_size ≤ n
    → free_start m ≤ n
    → set_free_end p n m ≡ ok tt (write_le 2 m free_end_offset (as_u16 n))
unfolding set_free_end
set_free_end_effect debug m n a b = ground arith
set_free_end_effect release m n a b = ground arith

-- Room for a cell and its entry.
abbrev pub HasRoom : RawPage → List ℕ → Type 0
HasRoom m cell = free_start m + entry_size + length cell ≤ free_end m

-- The last two steps of both methods: the cell's bytes, and `free_end`.
abbrev finish : Profile → ℕ → List ℕ → Slotted (Unit {0})
finish p start cell = store_bytes start cell >> set_free_end p start

module _ (p : Profile) (m : RawPage) (cell : List ℕ) (low : header_size ≤ free_start m)
    (small : free_end m ≤ page_size) (room : HasRoom m cell) where
  abbrev start : ℕ
  start = free_end m - length cell

  finish_effect :
      (m1 : RawPage) → Grown m m1 → finish p start cell m1 ≡ ok tt (placed m1 (free_end m) cell)
  finish_effect m1 grown = ground (
    arith,
    free_start-write_bytes m1 start cell,
    set_free_end_effect p (write_bytes m1 start cell) start,
  )

  size_fits : as_u16 (length cell) ≡ length cell
  size_fits = omega arith

  start_fits : as_u16 start ≡ start
  start_fits = omega arith

  abbrev entry : SlotEntry
  entry = record { offset = as_u16 start; length = as_u16 (length cell) }

  pub add_cell_append_effect :
      add_cell_append_slot_entry p cell m
      ≡ ok tt (placed (appended m (length cell) start) (free_end m) cell)
  unfolding add_cell_append_slot_entry
  add_cell_append_effect = ground (
    arith,
    size_fits,
    start_fits,
    cell_start_effect p m cell,
    append_slot_entry_effect p m (length cell) start,
    finish_effect (appended m (length cell) start)
        (free_start-appended m (length cell) start (omega arith)),
  )

  pub add_cell_at_effect :
      (idx : ℕ)
      → idx < entry_total m
      → add_cell_at_slot_entry_index p idx cell m
        ≡ ok tt (placed (shifted m idx (length cell) start) (free_end m) cell)
  unfolding add_cell_at_slot_entry_index
  add_cell_at_effect idx h = ground (
    arith,
    size_fits,
    start_fits,
    cell_start_effect p m cell,
    insert_slot_entry_at_index_effect p m idx entry,
    finish_effect (shifted m idx (length cell) start)
        (free_start-shifted m idx (length cell) start (omega arith)),
  )

  -- At the index behind the last entry the method appends.
  pub add_cell_at_last :
      add_cell_at_slot_entry_index p (entry_total m) cell m
      ≡ ok tt (placed (appended m (length cell) start) (free_end m) cell)
  unfolding add_cell_at_slot_entry_index
  add_cell_at_last = ground (
    arith,
    size_fits,
    start_fits,
    cell_start_effect p m cell,
    insert_slot_entry_at_index_effect p m (entry_total m) entry,
    finish_effect (appended m (length cell) start)
        (free_start-appended m (length cell) start (omega arith)),
  )

  pub add_cell_at_far :
      (idx : ℕ)
      → entry_total m < idx
      → add_cell_at_slot_entry_index p idx cell m ≡ err slot_index_not_in_range m
  unfolding add_cell_at_slot_entry_index
  add_cell_at_far idx h =
      ground (arith, cell_start_effect p m cell, insert_slot_entry_at_index_effect p m idx entry)

pub add_cell_append_full :
    (p : Profile) (m : RawPage) (cell : List ℕ)
    → free_start m ≤ free_end m
    → free_end m ≤ page_size
    → free_end m < free_start m + entry_size + length cell
    → add_cell_append_slot_entry p cell m ≡ err no_contigious_space m
unfolding add_cell_append_slot_entry
add_cell_append_full p m cell a b h = ground (arith, cell_start_effect p m cell)

pub add_cell_at_full :
    (p : Profile) (m : RawPage) (idx : ℕ) (cell : List ℕ)
    → free_start m ≤ free_end m
    → free_end m ≤ page_size
    → free_end m < free_start m + entry_size + length cell
    → add_cell_at_slot_entry_index p idx cell m ≡ err no_contigious_space m
unfolding add_cell_at_slot_entry_index
add_cell_at_full p m idx cell a b h = ground (arith, cell_start_effect p m cell)
