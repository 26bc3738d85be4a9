-- ===== src/Slotted/Cells.antt =====
-- Cells (page/slotted_page.rs): the two methods that add a cell, and those that read one.
use ink_db.Base.{ℕ, ◌+◌, ◌*◌, List, leb, ltb, length, ◌==◌}
use ink_db.Mem.{page_size}
use ink_db.Outcome.{
  Profile, pure, ◌>>=◌, ◌>>◌, assert_that, debug_assert, fail_if, sub_usize, as_u16, asks, slice,
  store_bytes,
}
use ink_db.Slotted.{
  Slotted, SlotEntry, no_contigious_space, empty_slot_dir, slot_id_out_of_bounds, corrupt_cell,
  entry_size,
}
use ink_db.Slotted.Header.{free_start, free_end, set_free_end}
use ink_db.Slotted.Dir.{
  slot_count, read_entry, slot_dir_ref, append_slot_entry, insert_slot_entry_at_index,
}

abbrev u16_max : ℕ
u16_max = 65535

module _ (p : Profile) where
  -- The checks that the two methods share: room for the cell and an entry, and its offset.
  unfoldable pub cell_start : List ℕ → Slotted ℕ
  cell_start cell = do
    fs ← asks free_start
    fe ← asks free_end
    space ← sub_usize p fe fs
    fail_if (ltb space (length cell + entry_size)) no_contigious_space
    start ← sub_usize p fe (length cell)
    assert_that (leb (length cell) u16_max)
    assert_that (leb start u16_max)
    pure start

  unfoldable pub add_cell_append_slot_entry : List ℕ → Slotted (Unit {0})
  add_cell_append_slot_entry cell = do
    start ← cell_start cell
    append_slot_entry p (as_u16 (length cell)) (as_u16 start)
    store_bytes start cell
    set_free_end p start

  unfoldable pub add_cell_at_slot_entry_index : ℕ → List ℕ → Slotted (Unit {0})
  add_cell_at_slot_entry_index index cell = do
    start ← cell_start cell
    insert_slot_entry_at_index p index
        (record { offset = as_u16 start; length = as_u16 (length cell) })
    store_bytes start cell
    set_free_end p start

  unfoldable pub cell_slice_from_id : ℕ → Slotted (List ℕ)
  cell_slice_from_id slot_id = do
    dir ← slot_dir_ref p
    fail_if (slot_count dir == 0) empty_slot_dir
    fail_if (leb (slot_count dir) slot_id) slot_id_out_of_bounds
    e ← read_entry (dir.ptr + slot_id * entry_size)
    fail_if (ltb page_size (e.offset + e.length)) corrupt_cell
    slice e.offset (e.offset + e.length)

  unfoldable pub cell_slice_from_entry : SlotEntry → Slotted (List ℕ)
  cell_slice_from_entry se = do
    debug_assert p (ltb (se.offset + se.length) page_size)
    slice se.offset (se.offset + se.length)
