-- ===== src/Slotted/Raw.antt =====
-- The methods of `SlottedPageMut` keep the bytes of the page bytes (page/slotted_page.rs), on any page.
use ink_db.Base.{ℕ, ◌<◌, List, [], ◌∷◌, arith}
use ink_db.Mem.{IsBytes}
use ink_db.Outcome.{Profile, store_bytes}
use ink_db.Outcome.Raw.{Raw, raw_rules, store_bytes-Raw}
use ink_db.Slotted.{PageError, SlotEntry, page_type_offset}
use ink_db.Slotted.Header.{
  wipe_page, set_page_type, set_flags, set_lsn, set_special_offset, init_new, set_free_start,
  increment_free_start, set_free_end,
}
use ink_db.Slotted.Dir.{append_slot_entry, shift_in, insert_slot_entry_at_index}
use ink_db.Slotted.Cells.{cell_start, add_cell_append_slot_entry, add_cell_at_slot_entry_index}

pub wipe_page-Raw : Raw wipe_page
unfolding wipe_page
wipe_page-Raw = record { at = λ m h i. omega arith }

pub set_page_type-Raw : (t : ℕ) → t < 256 → Raw (set_page_type t)
unfolding set_page_type
set_page_type-Raw t h = search (raw_rules, arith) depth 24

pub set_flags-Raw : (f : ℕ) → f < 256 → Raw (set_flags f)
unfolding set_flags
set_flags-Raw f h = search (raw_rules, arith) depth 24

pub set_lsn-Raw : (v : ℕ) → Raw (set_lsn v)
unfolding set_lsn
set_lsn-Raw v = search raw_rules depth 24

pub set_special_offset-Raw : (n : ℕ) → Raw (set_special_offset n)
unfolding set_special_offset
set_special_offset-Raw n = search raw_rules depth 24

undefined_type-Raw : Raw {E = PageError} (store_bytes page_type_offset (0xff ∷ []))
undefined_type-Raw = store_bytes-Raw page_type_offset (0xff ∷ []) (omega arith)

pub init_new-Raw : (t : ℕ) → t < 256 → Raw (init_new t)
unfolding init_new
init_new-Raw t h = search (raw_rules, undefined_type-Raw, set_page_type-Raw) depth 24

module _ (p : Profile) where
  pub set_free_start-Raw : (n : ℕ) → Raw (set_free_start p n)
  unfolding set_free_start
  set_free_start-Raw n = search raw_rules depth 24

  pub increment_free_start-Raw : (n : ℕ) → Raw (increment_free_start p n)
  unfolding increment_free_start
  increment_free_start-Raw n = search raw_rules depth 24

  pub set_free_end-Raw : (n : ℕ) → Raw (set_free_end p n)
  unfolding set_free_end
  set_free_end-Raw n = search raw_rules depth 24

  pub append_slot_entry-Raw : (size offset : ℕ) → Raw (append_slot_entry p size offset)
  unfolding append_slot_entry
  append_slot_entry-Raw size offset = search (raw_rules, increment_free_start-Raw) depth 24

  shift_in-Raw : (idx : ℕ) (e : SlotEntry) (n : ℕ) → Raw (shift_in p idx e n)
  unfolding shift_in
  shift_in-Raw idx e n = search (raw_rules, increment_free_start-Raw) depth 24

  pub insert_slot_entry_at_index-Raw :
      (idx : ℕ) (e : SlotEntry) → Raw (insert_slot_entry_at_index p idx e)
  unfolding insert_slot_entry_at_index
  insert_slot_entry_at_index-Raw idx e =
      search (raw_rules, append_slot_entry-Raw, shift_in-Raw) depth 24

  cell_start-Raw : (c : List ℕ) → Raw (cell_start p c)
  unfolding cell_start
  cell_start-Raw c = search raw_rules depth 24

  pub add_cell_append-Raw : (c : List ℕ) → IsBytes c → Raw (add_cell_append_slot_entry p c)
  unfolding add_cell_append_slot_entry
  add_cell_append-Raw c h =
      search (raw_rules, cell_start-Raw, append_slot_entry-Raw, set_free_end-Raw) depth 24

  pub add_cell_at-Raw : (k : ℕ) (c : List ℕ) → IsBytes c → Raw (add_cell_at_slot_entry_index p k c)
  unfolding add_cell_at_slot_entry_index
  add_cell_at-Raw k c h =
      search (raw_rules, cell_start-Raw, insert_slot_entry_at_index-Raw, set_free_end-Raw) depth 24
