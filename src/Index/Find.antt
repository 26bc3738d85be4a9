-- ===== src/Index/Find.antt =====
-- `IndexPageRef::find_child_ptr` (page/internal_page.rs).
use ink_db.Base.{
  ℕ, zero, suc, ◌/◌, List, [], ◌∷◌, Bool, true, false, ◌==◌, ltb, Option, none, some, if◌then◌else◌,
}
use ink_db.Outcome.{Profile, pure, crash, exhausted, choose, convert, ◌>>=◌}
use ink_db.Page.{PageId}
use ink_db.Slotted.{SlotEntry, entry_size}
use ink_db.Slotted.Dir.{SlotDirIter, iter, next_entry}
use ink_db.Slotted.Ref.{slot_dir_ref, cell_slice_from_id, cell_slice_from_entry}
use ink_db.Index.{Indexed, page_error}
use ink_db.Index.Cell.{from, get_key, get_value_ptr}
use ink_db.Index.Ref.{has_right_sibling, get_right_sibling}

-- `<` on `&[u8]`: the lexicographic order
unfoldable pub lt_bytes : List ℕ → List ℕ → Bool
lt_bytes [] [] = false
lt_bytes [] (y ∷ ys) = true
lt_bytes (x ∷ xs) [] = false
lt_bytes (x ∷ xs) (y ∷ ys) = if x == y then lt_bytes xs ys else ltb x y

module _ (p : Profile) (key : List ℕ) where
  -- The body of the `for` loop on one entry, before what follows it.
  unfoldable pub examine : SlotEntry → Indexed (Option PageId) → Indexed (Option PageId)
  examine se rest = do
    bytes ← convert page_error (cell_slice_from_entry p se)
    cell ← from bytes
    cell_key ← get_key p cell
    choose (lt_bytes key cell_key) (pure (some (get_value_ptr cell))) rest

  -- The loop over the entries that the iterator has left, of which there are fewer than the fuel.
  unfoldable pub search_entries : ℕ → SlotDirIter → Indexed (Option PageId)
  search_entries zero it = crash exhausted
  search_entries (suc fuel) it = do
    r ← convert page_error (next_entry it)
    let rest = search_entries fuel r.1
    elim r.0 [ none ↦ pure none | some se ↦ examine se rest ]

  -- `.skip(n)`
  unfoldable pub skip_entries : ℕ → SlotDirIter → Indexed SlotDirIter
  skip_entries zero it = pure it
  skip_entries (suc n) it = do r ← convert page_error (next_entry it); skip_entries n r.1

  unfoldable pub search_from : ℕ → Indexed (Option PageId)
  search_from skip = do
    dir ← convert page_error (slot_dir_ref p)
    it ← skip_entries skip (iter dir)
    search_entries (suc (it.size / entry_size)) it

  unfoldable pub find_child_ptr : Indexed (Option PageId)
  find_child_ptr = do
    high ← has_right_sibling p
    choose high
        (do
          bytes ← convert page_error (cell_slice_from_id p 0)
          cell ← from bytes
          high_key ← get_key p cell
          choose (lt_bytes high_key key) (get_right_sibling p) (search_from 1))
        (search_from 0)
