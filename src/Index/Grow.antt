-- ===== src/Index/Grow.antt =====
-- Index pages that a cell or a right sibling is added to (page/internal_page.rs).
use ink_db.Base.{
  some, ℕ, ◌+◌, ◌-◌, ◌≤◌, ◌≡◌, ap, ◌∙◌, List, length, arith, insert_at, insert_at-length, All,
  All-tabulate, All-at, All-insert_at,
}
use ink_db.Mem.{RawPage, read_bytes, read_le, le_value}
use ink_db.Mem.Laws.{read_bytes-cong}
use ink_db.Outcome.{Profile, Outcome, ok, err, fault}
use ink_db.Slotted.{PageError, no_contigious_space, entry_size}
use ink_db.Page.{PageId}
use ink_db.Slotted.Header.{get_special_offset, get_page_type, free_start, free_end}
use ink_db.Slotted.Layout.{entry_total, cell_at, cells}
use ink_db.Slotted.Place.{HasRoom}
use ink_db.Slotted.Insert.{Adds, append-Adds, insert-Adds, add_cell_full}
use ink_db.Index.{IndexPageError, page_error}
use ink_db.Slotted.Cells
use ink_db.Index.Header.{add_cell_append_slot_entry, add_cell_at_slot_entry_index}
use ink_db.Index.Cell.{new}
use ink_db.Index.Cell.Laws.{IsCell}
use ink_db.Index.Layout.{IsIndexPage, sibling, special_start}

-- Two pages with the same bytes from the special area on have the same sibling.
pub sibling-cong :
    (m m' : RawPage) → ((j : ℕ) → special_start ≤ j → m' j ≡ m j) → sibling m' ≡ sibling m
unfolding sibling
sibling-cong m m' h = ap le_value (
    read_bytes-cong m' m (special_start + 8) (special_start + 8) 8
      (λ i l. h (special_start + 8 + i) (omega arith)))

pub special-cong :
    (m m' : RawPage) → m' 16 ≡ m 16 → m' 17 ≡ m 17 → get_special_offset m' ≡ get_special_offset m
unfolding get_special_offset read_le read_bytes
special-cong m m' a b = ground arith

-- The page that a cell is added to at `k`, and the page after it.
pub record Grows (m : RawPage) (k : ℕ) (c : List ℕ) (m' : RawPage) : Type 0 where
  pub valid : IsIndexPage m'
  pub now : cells m' ≡ insert_at k c (cells m)
  pub same_sibling : sibling m' ≡ sibling m
  pub same_type : get_page_type m' ≡ get_page_type m
  pub space : free_end m' - free_start m' + (entry_size + length c) ≡ free_end m - free_start m

-- `?` on what a method of the slotted page gives
unfoldable pub converted : Outcome PageError (Unit {0}) → Outcome IndexPageError (Unit {0})
converted o = elim o [ ok u m' ↦ ok u m' | err e m' ↦ err (page_error e) m' | fault f ↦ fault f ]

module _ {m : RawPage} (x : IsIndexPage m) (k : ℕ) (c : List ℕ) (good : IsCell c) where
  pub grows :
      {out : Outcome PageError (Unit {0})}
      (a : Adds special_start m c (insert_at k c (cells m)) out)
      → Grows m k c a.page
  unfolding get_page_type
  grows a = record {
    valid = record {
      slotted = a.valid;
      special =
          special-cong m a.page (a.header 16 (omega arith) (omega arith))
            (a.header 17 (omega arith) (omega arith))
          ∙ x.special;
      parsed = All-at IsCell (entry_total a.page) (cell_at a.page) after;
    };
    now = a.now;
    same_sibling = sibling-cong m a.page a.rest;
    same_type = a.header 10 (omega arith) (omega arith);
    space = a.space;
  }
    where
      before : All IsCell (cells m)
      before = All-tabulate IsCell (entry_total m) (cell_at m) x.parsed

      after : All IsCell (cells a.page)
      after = rw a.now (All-insert_at IsCell k c (cells m) good before)

  -- In either build, with room for the cell and an index up to the number of cells,
  -- `add_cell_at_slot_entry_index` returns, on a well-formed index page with the cell at the index and
  -- the same sibling and type, and that much less free space.
  pub add_cell_at-Grows :
      (p : Profile)
      → HasRoom m c
      → k ≤ length (cells m)
      → (m' : RawPage) × (add_cell_at_slot_entry_index p k c m ≡ ok tt m') × Grows m k c m'
  unfolding add_cell_at_slot_entry_index converted
  add_cell_at-Grows p room h =
      let a = insert-Adds p m c x.slotted k room h in (a.page, ap converted a.returns, grows a)

-- `add_cell_append_slot_entry` likewise, with the cell behind the others.
pub add_cell_append-Grows :
    {m : RawPage} (c : List ℕ) (p : Profile)
    → IsIndexPage m
    → IsCell c
    → HasRoom m c
    → (m' : RawPage) × (add_cell_append_slot_entry p c m ≡ ok tt m')
      × Grows m (length (cells m)) c m'
unfolding add_cell_append_slot_entry converted
add_cell_append-Grows {m} c p x good room =
    let a : Adds special_start m c (insert_at (length (cells m)) c (cells m))
        (Cells.add_cell_append_slot_entry p c m) =
      rw (insert_at-length (cells m) c) (append-Adds p m c x.slotted room) in
    (a.page, ap converted a.returns, grows x (length (cells m)) c good a)

-- A cell that `IndexCellOwned::new` accepts with a key of 4043 bytes or more fits on no well-formed
-- index page: both methods return `NoContigiousSpace`, and the page is as it was.
pub large_cell-never-fits :
    (p : Profile) {m : RawPage} (key : List ℕ) (child : PageId) {c : List ℕ} (k : ℕ)
    → IsIndexPage m
    → 4043 ≤ length key
    → new key child ≡ some c
    → (add_cell_append_slot_entry p c m ≡ err (page_error no_contigious_space) m)
      × (add_cell_at_slot_entry_index p k c m ≡ err (page_error no_contigious_space) m)
unfolding new converted add_cell_append_slot_entry add_cell_at_slot_entry_index
large_cell-never-fits p {m} key child {c} k x h e = (ap converted full.0, ap converted full.1)
  where
    size : length c ≡ 10 + length key
    size = ground arith

    full :
        (Cells.add_cell_append_slot_entry p c m ≡ err no_contigious_space m)
        × (Cells.add_cell_at_slot_entry_index p k c m ≡ err no_contigious_space m)
    full = add_cell_full p m c x.slotted k (omega (arith, size, x.slotted.start, x.slotted.bound))
