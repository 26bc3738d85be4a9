-- ===== src/Index/Ends.antt =====
-- The loop of `find_child_ptr` (page/internal_page.rs) ends on any bytes.
use ink_db.Base.{
  ℕ, zero, suc, ◌+◌, ◌-◌, ◌*◌, ◌/◌, ◌⊎◌, inl, inr, dec_le, ◌<◌, ◌≡◌, ◌≢◌, List, arith, Option, none,
  some, dec_lt,
}
use ink_db.Mem.{RawPage, page_size, read_le}
use ink_db.Slotted.Ref.{free_start}
use ink_db.Outcome.{Profile, Outcome, ok, err, fault, exhausted, panicked, undefined}
use ink_db.Page.{PageId}
use ink_db.Slotted.{header_size, SlotEntry, entry_size}
use ink_db.Slotted.Dir.{SlotRef, SlotDirIter, iter, next_entry}
use ink_db.Slotted.Ref.{slot_dir_ref, cell_slice_from_id, cell_slice_from_entry}
use ink_db.Index.{IndexPageError}
use ink_db.Slotted.Ref.{get_special_ref}
use ink_db.Index.Ref.{has_right_sibling, get_right_sibling}
use ink_db.Index.Cell.{from, get_key}
use ink_db.Index.Find.{examine, search_entries, skip_entries, search_from, find_child_ptr}

-- An outcome that is no end of the model's fuel.
abbrev Ends : {E A : Type 0} → Outcome E A → Type 0
Ends (ok a m) = Unit
Ends (err e m) = Unit
Ends (fault panicked) = Unit
Ends (fault undefined) = Unit
Ends (fault exhausted) = ⊥

module _ (p : Profile) (key : List ℕ) (m : RawPage) where
  examine-Ends :
      (se : SlotEntry) (rest : RawPage → Outcome IndexPageError (Option PageId))
      → Ends (rest m)
      → Ends (examine p key se rest m)
  unfolding examine cell_slice_from_entry from get_key
  examine-Ends se rest h = ground arith

  -- The iterator is at its end, gives an entry and moves on, or reads past the page.
  next_entry-cases :
      (it : SlotDirIter)
      → (next_entry it m ≡ ok (none, it) m)
        ⊎ ((se : SlotEntry) × (it.pos < it.size / entry_size)
            × (next_entry it m ≡ ok (some se, record it { pos = it.pos + 1 }) m))
        ⊎ (next_entry it m ≡ fault undefined)
  unfolding next_entry
  next_entry-cases it = elim (dec_lt it.pos (it.size / entry_size)) [
    | no n ↦ inl (ground arith)
    | yes h ↦ elim (dec_le (it.ptr + it.pos * entry_size + 2 + 2) page_size) [
      | yes l ↦ inr (
          inl (
            record {
              offset = read_le 2 m (it.ptr + it.pos * entry_size);
              length = read_le 2 m (it.ptr + it.pos * entry_size + 2);
            },
            h,
            ground arith,
          ))
      | no n ↦ inr (inr (ground arith))
    ]
  ]

  search_entries-Ends :
      (fuel : ℕ) (it : SlotDirIter)
      → it.size / entry_size - it.pos < fuel
      → Ends (search_entries p key fuel it m)
  unfolding search_entries
  search_entries-Ends zero it h = elim h [ ]
  search_entries-Ends (suc fuel) it h = elim (next_entry-cases it) [
    | inl e ↦ ground arith
    | inr (inl (se, l, e)) ↦
        let next : SlotDirIter = record it { pos = it.pos + 1 } in
        ground
          (arith, examine-Ends se (search_entries p key fuel next), search_entries-Ends fuel next)
    | inr (inr e) ↦ ground arith
  ]

  slot_dir_ref-cases :
      ((s : SlotRef) × (slot_dir_ref p m ≡ ok s m)) ⊎ (slot_dir_ref p m ≡ fault panicked)
  unfolding slot_dir_ref
  slot_dir_ref-cases = elim (dec_le header_size (free_start m)) [
    | yes h ↦ inl (record { ptr = header_size; size = free_start m - header_size }, ground arith)
    | no n ↦ inr (ground arith)
  ]

  search_from_zero-Ends : Ends (search_from p key 0 m)
  unfolding search_from skip_entries
  search_from_zero-Ends = elim slot_dir_ref-cases [
    | inl (s, e) ↦ ground (arith, search_entries-Ends (suc ((iter s).size / entry_size)) (iter s))
    | inr e ↦ ground arith
  ]

  search_from_one-Ends : Ends (search_from p key 1 m)
  unfolding search_from skip_entries
  search_from_one-Ends = elim slot_dir_ref-cases [
    | inr e ↦ ground arith
    | inl (s, e) ↦ elim (next_entry-cases (iter s)) [
      | inl f ↦ ground (arith, search_entries-Ends (suc ((iter s).size / entry_size)) (iter s))
      | inr (inl (se, l, f)) ↦
          let next : SlotDirIter = record (iter s) { pos = (iter s).pos + 1 } in
          ground (arith, search_entries-Ends (suc (next.size / entry_size)) next)
      | inr (inr f) ↦ ground arith
    ]
  ]

  -- The methods before the loop leave the page and do not run out of fuel.
  abbrev Reads : {E A : Type 0} → Outcome E A → Type 0
  Reads (ok a m') = m' ≡ m
  Reads (err e m') = Unit
  Reads (fault x) = x ≢ exhausted

  has_right_sibling-Reads : Reads (has_right_sibling p m)
  unfolding has_right_sibling get_special_ref
  has_right_sibling-Reads = ground arith

  get_right_sibling-Reads : Reads (get_right_sibling p m)
  unfolding get_right_sibling get_special_ref
  get_right_sibling-Reads = ground arith

  cell_slice_from_id-Reads : (i : ℕ) → Reads (cell_slice_from_id p i m)
  unfolding cell_slice_from_id
  cell_slice_from_id-Reads i = elim slot_dir_ref-cases [
    | inl (s, e) ↦ ground arith
    | inr e ↦ ground arith
  ]

  get_key-Reads : (cell : List ℕ) → Reads (get_key p cell m)
  unfolding get_key
  get_key-Reads cell = ground arith

  -- On any bytes, in either build, the loop of `find_child_ptr` ends: the call returns, gives an error,
  -- or faults, and never runs out of the fuel of the model.
  pub find_child_ptr-ends : find_child_ptr p key m ≢ fault exhausted
  unfolding find_child_ptr from get_key
  find_child_ptr-ends e = ground (
    arith,
    has_right_sibling-Reads,
    get_right_sibling-Reads,
    cell_slice_from_id-Reads 0,
    search_from_zero-Ends,
    search_from_one-Ends,
  )
