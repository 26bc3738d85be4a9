-- ===== src/Slotted/Ref.antt =====
-- The read-only view of a slotted page, `SlottedPageRef` (page/slotted_page.rs): its own copies of the
-- methods that read, and `special_size`. Its `get_flags` and `get_lsn` stand in Slotted/Header.
pub mod Scan
pub mod Laws
use ink_db.Base.{ℕ, ◌+◌, ◌-◌, ◌*◌, List, ◌==◌, leb, ltb}
use ink_db.Mem.{RawPage, page_size, read_le}
use ink_db.Outcome.{
  Profile, pure, choose, ◌>>=◌, ◌>>◌, assert_that, debug_assert, fail_if, sub_usize, asks, slice,
}
use ink_db.Slotted.{
  Slotted, SlotEntry, empty_slot_dir, slot_id_out_of_bounds, corrupt_cell, special_offset_is_zero,
  page_type_offset, flags_offset, free_start_offset, free_end_offset, special_offset, lsn_offset,
  header_size, entry_size,
}
use ink_db.Slotted.Dir.{SlotRef, slot_count, read_entry}

unfoldable pub get_page_type : RawPage → ℕ
get_page_type m = m page_type_offset

unfoldable pub free_start : RawPage → ℕ
free_start m = read_le 2 m free_start_offset

unfoldable pub free_end : RawPage → ℕ
free_end m = read_le 2 m free_end_offset

unfoldable pub get_special_offset : RawPage → ℕ
get_special_offset m = read_le 2 m special_offset

-- Unfinished: no space is counted.
unfoldable pub free_fragmented_space : RawPage → ℕ
free_fragmented_space m = 0

module _ (p : Profile) where
  unfoldable pub free_contiguous_space : Slotted ℕ
  free_contiguous_space = do end ← asks free_end; start ← asks free_start; sub_usize p end start

  unfoldable pub slot_dir_ref : Slotted SlotRef
  slot_dir_ref = do
    fs ← asks free_start
    assert_that (leb header_size fs)
    size ← sub_usize p fs header_size
    pure (record { ptr = header_size; size = size })

  unfoldable pub cell_slice_from_id : ℕ → Slotted (List ℕ)
  cell_slice_from_id slot_id = do
    dir ← slot_dir_ref
    fail_if (slot_count dir == 0) empty_slot_dir
    fail_if (leb (slot_count dir) slot_id) slot_id_out_of_bounds
    e ← read_entry (dir.ptr + slot_id * entry_size)
    fail_if (ltb page_size (e.offset + e.length)) corrupt_cell
    slice e.offset (e.offset + e.length)

  unfoldable pub cell_slice_from_entry : SlotEntry → Slotted (List ℕ)
  cell_slice_from_entry se = do
    debug_assert p (ltb (se.offset + se.length) page_size)
    slice se.offset (se.offset + se.length)

  unfoldable pub special_size : Slotted ℕ
  special_size = do
    offset ← asks get_special_offset
    choose (offset == 0) (pure 0)
        do debug_assert p (leb offset page_size); sub_usize p page_size offset

  unfoldable pub get_special_ref : Slotted (List ℕ)
  get_special_ref = do
    s ← asks get_special_offset
    fail_if (s == 0) special_offset_is_zero
    size ← sub_usize p page_size s
    assert_that (leb size page_size)
    slice s (s + size)
