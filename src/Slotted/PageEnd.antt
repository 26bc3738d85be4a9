-- ===== src/Slotted/PageEnd.antt =====
-- The cell that ends with the page (page/slotted_page.rs, `cell_slice_from_entry`): the method's
-- `debug_assert!` asks for an end below the page's, and `cell_slice_from_id` for one up to it.
use ink_db.Base.{ℕ, ◌+◌, ◌-◌, ◌≤◌, ◌≡◌, ◌∙◌, ap, sym, List, [], insert_at, arith, length}
use ink_db.Mem.{RawPage, page_size}
use ink_db.Outcome.{debug, ok, fault, panicked}
use ink_db.Slotted.{SlotEntry, header_size, entry_size}
use ink_db.Slotted.Header.{init_new, free_start, free_end}
use ink_db.Slotted.Cells.{add_cell_append_slot_entry, cell_slice_from_entry, cell_slice_from_id}
use ink_db.Slotted.Layout.{entry_total, entry_at, cells, IsSlotted, length-cells}
use ink_db.Slotted.Effect.{appended}
use ink_db.Slotted.Place.{HasRoom, placed, add_cell_append_effect}
use ink_db.Slotted.Extend.{Extends, cells-Extends, IsSlotted-Extends}
use ink_db.Slotted.Added.{Extends-append}
use ink_db.Slotted.Read.{answer, cell_slice_from_id-answer}
use ink_db.Slotted.Init.{init_new-IsFresh}

past_end-panics :
    (m : RawPage) (e : SlotEntry)
    → page_size ≤ e.offset + e.length
    → cell_slice_from_entry debug e m ≡ fault panicked
unfolding cell_slice_from_entry
past_end-panics m e h = ground arith

-- the page with its first cell
module _ (m1 : RawPage) (cell : List ℕ) (s : IsSlotted page_size m1) (none_yet : cells m1 ≡ [])
    (at_end : free_end m1 ≡ page_size) (room : HasRoom m1 cell) where
  abbrev m2 : RawPage
  m2 = placed (appended m1 (length cell) (free_end m1 - length cell)) (free_end m1) cell

  total_zero : entry_total m1 ≡ 0
  total_zero = sym (length-cells m1) ∙ ap length none_yet

  extends : Extends m1 0 cell m2
  extends = rw total_zero at (Extends-append m1 cell s room)

  by_id : cell_slice_from_id debug 0 m2 ≡ ok cell m2
  unfolding answer
  by_id =
      cell_slice_from_id-answer debug m2
        (IsSlotted-Extends page_size m1 0 cell m2 s room (omega arith) extends) 0
      ∙ ap (λ cs. answer cs 0 m2)
          (cells-Extends page_size m1 0 cell m2 s room (omega arith) extends
            ∙ ap (insert_at 0 cell) none_yet)

  by_entry : cell_slice_from_entry debug (entry_at m2 0) m2 ≡ fault panicked
  by_entry = past_end-panics m2 (entry_at m2 0) (rw extends.mid (omega (arith, at_end)))

-- The first cell of a page that `init_new` has prepared ends with the page: in a debug build
-- `cell_slice_from_id` gives the cell, and `cell_slice_from_entry` panics on its entry.
pub first_cell-panics :
    (t : ℕ) (m : RawPage) (cell : List ℕ)
    → length cell + entry_size + header_size ≤ page_size
    → (m1 m2 : RawPage) × (init_new t m ≡ ok tt m1)
      × (add_cell_append_slot_entry debug cell m1 ≡ ok tt m2)
      × (cell_slice_from_id debug 0 m2 ≡ ok cell m2)
      × (cell_slice_from_entry debug (entry_at m2 0) m2 ≡ fault panicked)
first_cell-panics t m cell h =
    let (m1, e, f) = init_new-IsFresh t m in
    let start : free_start m1 ≡ header_size =
      omega (arith, f.valid.start, f.valid.bound, f.space) in
    let end : free_end m1 ≡ page_size = omega (arith, f.valid.bound, f.space) in
    let room : HasRoom m1 cell = omega arith in
    (
      m1,
      m2 m1 cell f.valid f.no_cells end room,
      e,
      add_cell_append_effect debug m1 cell f.valid.start f.valid.bound room,
      by_id m1 cell f.valid f.no_cells end room,
      by_entry m1 cell f.valid f.no_cells end room,
    )
