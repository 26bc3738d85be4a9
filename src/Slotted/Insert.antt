-- ===== src/Slotted/Insert.antt =====
-- Adding a cell to a well-formed page: the result, the errors, and what stays as it was.
use ink_db.Base.{
  ℕ, ◌+◌, ◌-◌, ◌≤◌, ◌<◌, ◌≡◌, List, [], ◌∷◌, ◌++◌, arith, length, insert_at, insert_at-length,
  dec_lt,
}
use ink_db.Mem.{RawPage, page_size}
use ink_db.Outcome.{Profile, Outcome, ok, err}
use ink_db.Slotted.{
  PageError, no_contigious_space, slot_index_not_in_range, header_size, entry_size,
}
use ink_db.Slotted.Header.{free_start, free_end}
use ink_db.Slotted.Cells.{add_cell_append_slot_entry, add_cell_at_slot_entry_index}
use ink_db.Slotted.Layout.{entry_total, cells, IsSlotted, length-cells}
use ink_db.Slotted.Place.{
  HasRoom, add_cell_append_effect, add_cell_at_effect, add_cell_append_full, add_cell_at_full,
  add_cell_at_last, add_cell_at_far,
}
use ink_db.Slotted.Extend.{Extends, HeaderRest, cells-Extends, IsSlotted-Extends}
use ink_db.Slotted.Added.{Extends-append, Extends-shift}

-- A call that ends well and leaves `after` as the cells of a page that is well-formed, with as much
-- less free space, and the same bytes from `lim` on and in the rest of the header.
pub record Adds (lim : ℕ) (m : RawPage) (cell : List ℕ) (after : List (List ℕ))
    (out : Outcome PageError (Unit {0})) : Type 0 where
  pub page : RawPage
  pub returns : out ≡ ok tt page
  pub now : cells page ≡ after
  pub valid : IsSlotted lim page
  pub space :
      free_end page - free_start page + (entry_size + length cell) ≡ free_end m - free_start m
  pub rest : (j : ℕ) → lim ≤ j → page j ≡ m j
  pub header : (j : ℕ) → j < header_size → HeaderRest j → page j ≡ m j

adds :
    {lim : ℕ} (m : RawPage) (k : ℕ) (cell : List ℕ) (m' : RawPage)
    {out : Outcome PageError (Unit {0})}
    → IsSlotted lim m
    → HasRoom m cell
    → k ≤ entry_total m
    → out ≡ ok tt m'
    → Extends m k cell m'
    → Adds lim m cell (insert_at k cell (cells m)) out
adds {lim} m k cell m' s room k_in e x = record {
  page = m';
  returns = e;
  now = cells-Extends lim m k cell m' s room k_in x;
  valid = IsSlotted-Extends lim m k cell m' s room k_in x;
  space = omega (arith, x.grown, x.lowered);
  rest = λ j h. x.kept j (omega (arith, s.bound));
  header = x.header;
}

module _ (p : Profile) {lim : ℕ} (m : RawPage) (cell : List ℕ) (s : IsSlotted lim m) where
  small : free_end m ≤ page_size
  small = omega (arith, s.bound, s.limit)

  -- On a well-formed page with room for the cell and an entry, `add_cell_append_slot_entry` returns, and
  -- leaves a well-formed page with the cell behind those that were there.
  pub append-Adds :
      HasRoom m cell
      → Adds lim m cell (cells m ++ (cell ∷ [])) (add_cell_append_slot_entry p cell m)
  append-Adds room =
      rw (← insert_at-length (cells m) cell, length-cells m)
        (adds m (entry_total m) cell _ s room (omega arith)
          (add_cell_append_effect p m cell s.start small room) (Extends-append m cell s room))

  -- On a well-formed page with room for the cell and an entry, and with an index up to the number of
  -- cells, `add_cell_at_slot_entry_index` returns, and leaves a well-formed page with the cell put in at the index.
  pub insert-Adds :
      (k : ℕ)
      → HasRoom m cell
      → k ≤ length (cells m)
      → Adds lim m cell (insert_at k cell (cells m)) (add_cell_at_slot_entry_index p k cell m)
  insert-Adds k room in_list =
      let h : k ≤ entry_total m = rw length-cells at in_list in
      elim (dec_lt k (entry_total m)) [
        | yes l ↦
            adds m k cell _ s room h (add_cell_at_effect p m cell s.start small room k l)
              (Extends-shift m cell s room k l)
        | no g ↦
            let last : k ≡ entry_total m = omega arith in
            rw last (
              adds m (entry_total m) cell _ s room (omega arith)
                (add_cell_at_last p m cell s.start small room) (Extends-append m cell s room))
      ]

  -- On a well-formed page without room for the cell and an entry both methods return
  -- `NoContigiousSpace`, at any index, and the page is as it was.
  pub add_cell_full :
      (k : ℕ)
      → free_end m < free_start m + entry_size + length cell
      → (add_cell_append_slot_entry p cell m ≡ err no_contigious_space m)
        × (add_cell_at_slot_entry_index p k cell m ≡ err no_contigious_space m)
  add_cell_full k h =
      (add_cell_append_full p m cell s.order small h, add_cell_at_full p m k cell s.order small h)

  -- On a well-formed page with room for the cell and an entry, but an index past the number of cells,
  -- `add_cell_at_slot_entry_index` returns `SlotIndexNotInRange`, and the page is as it was.
  pub add_cell_far :
      (k : ℕ)
      → HasRoom m cell
      → length (cells m) < k
      → add_cell_at_slot_entry_index p k cell m ≡ err slot_index_not_in_range m
  add_cell_far k room h = add_cell_at_far p m cell s.start small room k (rw length-cells at h)
