-- ===== src/Tests/Indexes.antt =====
-- Index pages at concrete inputs (page/internal_page.rs).
use ink_db.Base.{
  ◌≢◌, ℕ, ◌%◌, ◌≡◌, refl, List, [], ◌∷◌, arith, length, tabulate, length-tabulate, true, Option,
  some, none,
}
use ink_db.Mem.{RawPage, read_le, read_bytes, write_le, write_bytes, move_bytes}
use ink_db.Outcome.{exhausted, debug, release, Outcome, ok, err, fault, ◌>>◌}
use ink_db.Page.{PageId}
use ink_db.Page.Kind
use ink_db.Slotted.{no_contigious_space}
use ink_db.Slotted.Header
use ink_db.Slotted.Header.{free_start, free_end}
use ink_db.Slotted.Dir
use ink_db.Slotted.Cells
use ink_db.Slotted.Layout.{cells}
use ink_db.Slotted.Place.{HasRoom}
use ink_db.Index.{IndexPageError, page_error}
use ink_db.Index.Header.{init_in_place, add_cell_append_slot_entry, add_cell_at_slot_entry_index}
use ink_db.Index.Cell.{encode, new, from, get_key, get_value_ptr}
use ink_db.Index.Cell.Laws.{new_round_trip}
use ink_db.Index.Find.{find_child_ptr, search_from, search_entries, skip_entries, examine, lt_bytes}
use ink_db.Index.Sibling.{set_right_sibling, has_right_sibling}
use ink_db.Index.Ref
use ink_db.Slotted.Ref as SlottedRef
use ink_db.Index.Ref.{get_right_sibling}
use ink_db.Index.Layout.{IsIndexPage, sibling}
use ink_db.Index.Route.{route, find_child_ptr-route}
use ink_db.Index.Fresh.{IsFreshIndex, init_in_place-IsFreshIndex}
use ink_db.Index.Grow.{Grows, add_cell_at-Grows, large_cell-never-fits}
use ink_db.Index.Ends.{find_child_ptr-ends}
use ink_db.Index.Link.{set_right_sibling_lem}

abbrev blank : RawPage
blank i = 0

fresh_page : (m' : RawPage) × (init_in_place debug 77 blank ≡ ok tt m') × IsFreshIndex 77 m'
fresh_page = init_in_place-IsFreshIndex debug 77 blank (omega arith)

-- a page that `init_in_place` left
start : (m' : RawPage) × (init_in_place debug 77 blank ≡ ok tt m') × IsFreshIndex 77 m'
start = init_in_place-IsFreshIndex debug 77 blank (omega arith)

new_round_trip_example :
    (c : List ℕ) × (new (104 ∷ 105 ∷ []) 513 ≡ some c)
    × (from c blank ≡ ok c blank)
    × (get_key debug c blank ≡ ok (104 ∷ 105 ∷ []) blank)
    × (get_value_ptr c ≡ 513)
new_round_trip_example = new_round_trip debug (104 ∷ 105 ∷ []) 513 blank (omega arith) (omega arith)

find_child_ptr-route_example :
    find_child_ptr debug (104 ∷ []) start.0
    ≡ route (104 ∷ []) (sibling start.0) (cells start.0) start.0
find_child_ptr-route_example = find_child_ptr-route debug (104 ∷ []) start.2.valid

sibling_set :
    (m' : RawPage) × (set_right_sibling release 513 start.0 ≡ ok tt m')
    × IsIndexPage m'
    × (cells m' ≡ cells start.0)
    × (get_right_sibling release m' ≡ ok (some 513) m')
    × (has_right_sibling release m' ≡ ok true m')
sibling_set = set_right_sibling_lem start.2.valid 513 release (omega arith)

abbrev cell : List ℕ
cell = encode (104 ∷ 105 ∷ []) 513

start-HasRoom : HasRoom start.0 cell
start-HasRoom = omega (arith, start.2.space, start.2.valid.slotted.order)

grown :
    (m' : RawPage) × (add_cell_at_slot_entry_index debug 0 cell start.0 ≡ ok tt m')
    × Grows start.0 0 cell m'
grown = add_cell_at-Grows start.2.valid 0 cell (omega arith) debug start-HasRoom (omega arith)

-- a key of 4043 bytes
long_key : List ℕ
long_key = tabulate 4043 (λ i. i % 256)

length-long_key : length long_key ≡ 4043
unfolding long_key
length-long_key = length-tabulate 4043 (λ i. i % 256)

long_key-new : new long_key 5 ≡ some (encode long_key 5)
unfolding new
long_key-new = ground (arith, length-long_key)

large_cell-never-fits_example :
    (add_cell_append_slot_entry release (encode long_key 5) start.0
      ≡ err (page_error no_contigious_space) start.0)
    × (add_cell_at_slot_entry_index release 0 (encode long_key 5) start.0
        ≡ err (page_error no_contigious_space) start.0)
large_cell-never-fits_example =
    large_cell-never-fits release long_key 5 0 start.2.valid (omega (arith, length-long_key))
      long_key-new

-- keys and children of a page by evaluation
abbrev value : {A : Type 0} → Outcome IndexPageError A → Option A
value (ok a m) = some a
value (err e m) = none
value (fault x) = none

-- A page with the high key 50 and the sibling 99, and the separators 10, 20 and 50.
abbrev routed : List ℕ → Option (Option PageId)
routed key = value (
    (do
      init_in_place debug 1
      set_right_sibling debug 99
      add_cell_append_slot_entry debug (encode (50 ∷ []) 0)
      add_cell_append_slot_entry debug (encode (10 ∷ []) 1)
      add_cell_append_slot_entry debug (encode (50 ∷ []) 3)
      add_cell_at_slot_entry_index debug 2 (encode (20 ∷ []) 2)
      find_child_ptr debug key)
      blank)

routes :
    (routed (5 ∷ []) ≡ some (some 1))
    × (routed (10 ∷ []) ≡ some (some 2))
    × (routed (20 ∷ 1 ∷ []) ≡ some (some 3))
    × (routed (50 ∷ []) ≡ some none)
    × (routed (50 ∷ 0 ∷ []) ≡ some (some 99))
unfolding init_in_place set_right_sibling add_cell_append_slot_entry add_cell_at_slot_entry_index
    find_child_ptr search_from search_entries skip_entries examine lt_bytes from get_key
    get_value_ptr get_right_sibling has_right_sibling Cells.add_cell_append_slot_entry
    Cells.add_cell_at_slot_entry_index Cells.cell_slice_from_id Cells.cell_slice_from_entry
    Cells.cell_start Dir.append_slot_entry Dir.insert_slot_entry_at_index Dir.shift_in
    Dir.slot_dir_ref Dir.slot_count Dir.iter Dir.next_entry Header.increment_free_start
    Header.set_free_start Header.set_free_end Header.wipe_page Header.set_page_type
    Header.set_special_offset Header.set_lsn Header.get_special_mut Header.get_special_ref
    Header.get_special_offset Kind.new Kind.discriminant free_start free_end read_le read_bytes
    write_le write_bytes move_bytes Ref.has_right_sibling SlottedRef.get_special_ref
    SlottedRef.get_special_offset SlottedRef.cell_slice_from_id SlottedRef.slot_dir_ref
    SlottedRef.free_start SlottedRef.cell_slice_from_entry
routes = (refl, refl, refl, refl, refl)

find_child_ptr-ends_example : find_child_ptr debug (104 ∷ []) (λ i. 255) ≢ fault exhausted
find_child_ptr-ends_example = find_child_ptr-ends debug (104 ∷ []) (λ i. 255)
