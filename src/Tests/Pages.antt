-- ===== src/Tests/Pages.antt =====
-- Slotted pages and page types at concrete inputs (page/slotted_page.rs, page/mod.rs).
use ink_db.Base.{
  if◌then◌else◌, ◌==◌, List, ℕ, ◌+◌, ◌*◌, ◌≤◌, ◌<◌, ◌≡◌, ◌≢◌, ◌↔◌, All, refl, [], ◌∷◌, ◌++◌, arith,
  insert_at, true, false, ◌&&◌, ◌||◌, not, Option, some, none,
}
use ink_db.Mem.{RawPage, IsRaw, page_size, read_le, read_bytes, write_le, write_bytes, move_bytes}
use ink_db.Outcome.{debug, release, ok, err, fault, panicked, undefined, ◌>>=◌, ◌>>◌, pure, Outcome}
use ink_db.Page.Kind
use ink_db.Page.Kind.{PageKind, page_type, page_sub_type, page_kind}
use ink_db.Page.Kind.Laws.{page_type_fields, page_kind-new}
use ink_db.Page.Flags
use ink_db.Page.Flags.{
  deleted, half_deleted, incomplete_split, has_overflow, fast_parent, has_flag, set_flag,
  clear_flag, extract_all_flags,
}
use ink_db.Page.Flags.Laws.{
  has_flag-set_clear, from_u8-bit, listed, one_if, listed-extract_all_flags,
}
use ink_db.Slotted.{
  header_size, entry_size, slot_id_out_of_bounds, PageError, no_contigious_space,
  slot_index_not_in_range,
}
use ink_db.Slotted.Header
use ink_db.Slotted.Header.{
  init_new, set_free_start, free_start, free_end, get_special_mut, get_special_offset,
}
use ink_db.Slotted.Dir
use ink_db.Slotted.Cells.{
  add_cell_append_slot_entry, add_cell_at_slot_entry_index, cell_slice_from_id,
  cell_slice_from_entry, cell_start,
}
use ink_db.Slotted.Layout.{IsSlotted, length-cells, cells, entry_at, entry_total, entry_base}
use ink_db.Slotted.Place.{HasRoom}
use ink_db.Slotted.Insert.{Adds, append-Adds, insert-Adds, add_cell_full, add_cell_far}
use ink_db.Slotted.Read.{answer, cell_slice_from_id-answer}
use ink_db.Slotted.Init.{
  prepared, free_start-prepared, free_end-prepared, prepared-IsSlotted, IsFresh, init_new-IsFresh,
}
use ink_db.Slotted.Refine.{
  Call, append, put, get, done, found, refused, broken, Agrees, perform_all, promise_all, store_of,
  perform_all-Agrees,
}
use ink_db.Slotted.Ref.Laws.{SpecialArea, special_size-get_special_ref}
use ink_db.Slotted.Ref.Scan.{scan_all, read_all, scan_all-read_all}
use ink_db.Slotted.Fields
use ink_db.Slotted.Fields.{set_all, fields, set_all-assign_all}
use ink_db.Slotted.Corrupt.{HasHeader, perform_all-Ends, cell_slice_from_id-undefined}
use ink_db.Index.Raw.{Write, write_all}
use ink_db.Index.Raw.Typed.{ReadsTyped, write_all-IsRaw}
use ink_db.Slotted.PageEnd.{first_cell-panics}

abbrev blank : RawPage
blank i = 0

abbrev page : RawPage
page = prepared 255 blank

page-IsSlotted : IsSlotted page_size page
page-IsSlotted = prepared-IsSlotted 255 blank

page-HasRoom : HasRoom page (7 ∷ 8 ∷ [])
page-HasRoom = omega (arith, free_start-prepared 255 blank, free_end-prepared 255 blank)

cell_on_empty_page :
    Adds page_size page
      (7 ∷ 8 ∷ [])
      (cells page ++ ((7 ∷ 8 ∷ []) ∷ []))
      (add_cell_append_slot_entry debug (7 ∷ 8 ∷ []) page)
cell_on_empty_page = append-Adds debug page (7 ∷ 8 ∷ []) page-IsSlotted page-HasRoom

-- the page with one cell, and room for another
one :
    Adds page_size page
      (7 ∷ 8 ∷ [])
      (cells page ++ ((7 ∷ 8 ∷ []) ∷ []))
      (add_cell_append_slot_entry debug (7 ∷ 8 ∷ []) page)
one = append-Adds debug page (7 ∷ 8 ∷ []) page-IsSlotted page-HasRoom

one-HasRoom : HasRoom one.page (9 ∷ [])
one-HasRoom =
    omega (
      arith,
      one.space,
      one.valid.order,
      free_start-prepared 255 blank,
      free_end-prepared 255 blank,
    )

insert-Adds_example :
    Adds page_size one.page
      (9 ∷ [])
      (insert_at 0 (9 ∷ []) (cells one.page))
      (add_cell_at_slot_entry_index release 0 (9 ∷ []) one.page)
insert-Adds_example = insert-Adds release one.page (9 ∷ []) one.valid 0 one-HasRoom (omega arith)

-- a page with two free bytes
abbrev tight : RawPage
tight = write_le 2 (write_le 2 blank 12 24) 14 26

tight-words : (free_start tight ≡ 24) × (free_end tight ≡ 26)
unfolding free_start free_end read_le read_bytes write_le write_bytes
tight-words = (refl, refl)

tight-IsSlotted : IsSlotted 26 tight
tight-IsSlotted = record {
  start = omega (arith, tight-words);
  aligned = omega (arith, tight-words);
  order = omega (arith, tight-words);
  bound = omega (arith, tight-words);
  limit = omega arith;
  inside = λ i h. absurd (omega (arith, tight-words));
}

full_page_refuses :
    (add_cell_append_slot_entry debug (7 ∷ []) tight ≡ err no_contigious_space tight)
    × (add_cell_at_slot_entry_index debug 0 (7 ∷ []) tight ≡ err no_contigious_space tight)
full_page_refuses =
    add_cell_full debug tight (7 ∷ []) tight-IsSlotted 0 (omega (arith, tight-words))

far_index_refused :
    add_cell_at_slot_entry_index debug 3 (7 ∷ 8 ∷ []) page ≡ err slot_index_not_in_range page
far_index_refused =
    add_cell_far debug page (7 ∷ 8 ∷ []) page-IsSlotted 3 page-HasRoom
      (omega (arith, length-cells page, free_start-prepared 255 blank))

first_slot : cell_slice_from_id debug 0 one.page ≡ answer (cells one.page) 0 one.page
first_slot = cell_slice_from_id-answer debug one.page one.valid 0

init_new-IsFresh_example : (m' : RawPage) × (init_new 4 blank ≡ ok tt m') × IsFresh 4 blank m'
init_new-IsFresh_example = init_new-IsFresh 4 blank

first_cell-panics_example :
    (m1 m2 : RawPage) × (init_new 255 blank ≡ ok tt m1)
    × (add_cell_append_slot_entry debug (7 ∷ 8 ∷ []) m1 ≡ ok tt m2)
    × (cell_slice_from_id debug 0 m2 ≡ ok (7 ∷ 8 ∷ []) m2)
    × (cell_slice_from_entry debug (entry_at m2 0) m2 ≡ fault panicked)
first_cell-panics_example = first_cell-panics 255 blank (7 ∷ 8 ∷ []) (omega arith)

fields_apart :
    (page_type (Kind.new 0x13 0x2a) ≡ 3)
    × (page_sub_type (Kind.new 0x13 0x2a) ≡ 10)
    × (page_type (Kind.set_page_type 0x75 0x13) ≡ 3)
    × (page_sub_type (Kind.set_page_type 0x75 0x13) ≡ page_sub_type 0x75)
    × (page_type (Kind.set_subtype_page_bits 0x75 0x2a) ≡ page_type 0x75)
    × (page_sub_type (Kind.set_subtype_page_bits 0x75 0x2a) ≡ 10)
fields_apart = page_type_fields 0x75 0x13 0x2a (omega arith) (omega arith) (omega arith)

page_kind-new_example :
    (page_kind (Kind.new (Kind.discriminant PageKind.undefined) 9) ≡ PageKind.undefined)
    × (page_kind (Kind.new (Kind.into_u8 PageKind.undefined) 9) ≡ PageKind.undefined)
    × (Kind.from_u8 (Kind.into_u8 PageKind.undefined) ≡ some PageKind.undefined)
page_kind-new_example = page_kind-new PageKind.undefined 9 (omega arith)

flag_after_set_clear :
    (has_flag (set_flag 0x03 half_deleted) deleted ≡ ((true && false) || has_flag 0x03 deleted))
    × (has_flag (clear_flag 0x03 half_deleted) deleted ≡ (not false && has_flag 0x03 deleted))
flag_after_set_clear = has_flag-set_clear 0x03 half_deleted deleted (omega arith)

-- what a call gives, without the page
abbrev value : {A : Type 0} → Outcome PageError A → Option A
value (ok a m) = some a
value (err e m) = none
value (fault x) = none

-- Two cells appended, one put between them, and all three read back.
inserted_cells :
    value (
      (do
        init_new 255
        add_cell_append_slot_entry debug (1 ∷ [])
        add_cell_append_slot_entry debug (2 ∷ 2 ∷ [])
        add_cell_at_slot_entry_index debug 1 (3 ∷ 3 ∷ 3 ∷ [])
        a ← cell_slice_from_id debug 0
        b ← cell_slice_from_id debug 1
        c ← cell_slice_from_id debug 2
        pure (a ++ (b ++ c)))
        blank)
    ≡ some (1 ∷ 3 ∷ 3 ∷ 3 ∷ 2 ∷ 2 ∷ [])
unfolding init_new add_cell_append_slot_entry add_cell_at_slot_entry_index cell_slice_from_id
    cell_start Dir.append_slot_entry Dir.insert_slot_entry_at_index Dir.shift_in Dir.slot_dir_ref
    Dir.slot_count Header.increment_free_start Header.set_free_end free_start free_end read_le
    read_bytes write_le write_bytes move_bytes
inserted_cells = refl

-- The test `check_undefined_special`.
undefined_special : value (get_special_mut debug page) ≡ none
unfolding get_special_mut Header.get_special_offset read_le read_bytes write_le write_bytes
undefined_special = refl

-- The list of the flags of a page that is half deleted says that it is deleted.
half_deleted_listed : extract_all_flags (Flags.new half_deleted) ≡ deleted ∷ []
unfolding extract_all_flags Flags.push_all has_flag Flags.new
half_deleted_listed = refl

deleted_bit :
    (Flags.from_u8 (Flags.bit deleted) ≡ some deleted)
    × (has_flag (Flags.new deleted) deleted ≡ true)
deleted_bit = from_u8-bit deleted deleted

listed-extract_all_flags_example :
    (listed fast_parent (extract_all_flags 7) ≡ one_if (has_flag 7 fast_parent))
    × (listed incomplete_split (extract_all_flags 7) ≡ one_if (has_flag 7 incomplete_split))
    × (listed has_overflow (extract_all_flags 7) ≡ one_if (has_flag 7 has_overflow))
    × (listed half_deleted (extract_all_flags 7) ≡ 0)
    × (listed deleted (extract_all_flags 7)
        ≡ one_if (has_flag 7 deleted) + one_if (has_flag 7 half_deleted))
listed-extract_all_flags_example = listed-extract_all_flags 7

-- Calls, one of them far out of range and one on a slot that is not there.
abbrev calls : List Call
calls = append (1 ∷ []) ∷ put 0 (2 ∷ 2 ∷ []) ∷ put 7 (3 ∷ []) ∷ get 1 ∷ get 2 ∷ []

cell_calls :
    Agrees page_size page (perform_all debug calls page) (promise_all calls (store_of page))
cell_calls = perform_all-Agrees debug calls page page-IsSlotted

-- The replies of the page to these calls.
replies_to_calls :
    (perform_all debug calls page).0
    ≡ done
      ∷ done
      ∷ refused slot_index_not_in_range
      ∷ found (1 ∷ [])
      ∷ refused slot_id_out_of_bounds
      ∷ []
unfolding add_cell_append_slot_entry add_cell_at_slot_entry_index cell_slice_from_id cell_start
    Dir.append_slot_entry Dir.insert_slot_entry_at_index Dir.shift_in Dir.slot_dir_ref
    Dir.slot_count Header.increment_free_start Header.set_free_end free_start free_end read_le
    read_bytes write_le write_bytes move_bytes
replies_to_calls = refl

scan_all-read_all_example :
    (scan_all release one.page ≡ ok (cells one.page) one.page)
    × (read_all release one.page ≡ ok (cells one.page) one.page)
scan_all-read_all_example = scan_all-read_all release one.page one.valid tt

-- a page whose special area starts at 0x0f00
abbrev with_special : RawPage
with_special i = if i == 17 then 15 else 0

special_size_agrees : SpecialArea debug with_special
special_size_agrees = special_size-get_special_ref debug with_special (λ i. ground arith)

-- The sequence number is set twice, and the flags once.
abbrev sets : List Fields.Call
sets = Fields.lsn 7 ∷ Fields.flags 3 ∷ Fields.lsn (256 * 256) ∷ []

header_sets :
    (m' : RawPage) × (set_all sets one.page ≡ ok tt m')
    × (fields m' ≡ record { page_type = (fields one.page).page_type; flags = 3; lsn = 65536 })
    × IsSlotted page_size m'
    × (cells m' ≡ cells one.page)
    × (get_special_offset m' ≡ get_special_offset one.page)
    × ((j : ℕ) → 8 ≤ j → j < 10 → m' j ≡ one.page j)
header_sets =
    set_all-assign_all one.page sets one.valid (omega arith, (omega arith, (omega arith, tt)))

-- A page with one entry, all of whose bytes are 255: its cell would pass the page's end.
abbrev corrupt : RawPage
corrupt = write_le 2 (write_le 2 (λ i. 255) 12 28) 14 4096

corrupt-HasHeader : HasHeader corrupt
unfolding free_start free_end read_le read_bytes write_le write_bytes
corrupt-HasHeader = record { start = omega arith; order = omega arith; bound = omega arith }

perform_all-Ends_example :
    All (λ r. r ≢ broken) (perform_all debug calls corrupt).0
    × HasHeader (perform_all debug calls corrupt).1
perform_all-Ends_example = perform_all-Ends debug calls corrupt corrupt-HasHeader

-- What `set_free_start` leaves in a release build: the directory passes the page's end.
abbrev overlong : RawPage
overlong = write_le 2 corrupt 12 5000

set_free_start-overlong : set_free_start release 5000 corrupt ≡ ok tt overlong
unfolding set_free_start
set_free_start-overlong = refl

cell_slice_from_id-undefined_example :
    (cell_slice_from_id release 1018 overlong ≡ fault undefined) ↔ (
      (header_size ≤ free_start overlong)
      × (1018 < entry_total overlong)
      × (page_size < entry_base 1018 + entry_size))
cell_slice_from_id-undefined_example = cell_slice_from_id-undefined release overlong 1018

reads_past_page : cell_slice_from_id release 1018 overlong ≡ fault undefined
unfolding free_start read_le read_bytes write_le write_bytes
reads_past_page =
    (cell_slice_from_id-undefined release overlong 1018).1 (omega arith, omega arith, omega arith)

abbrev writes : List Write
writes = Write.new 255 ∷ Write.cell (7 ∷ []) ∷ Write.free_end 2 ∷ Write.index_level 3 ∷ []

bytes_stay_bytes : IsRaw (write_all debug writes blank) × ReadsTyped (write_all debug writes blank)
bytes_stay_bytes = write_all-IsRaw debug writes blank (λ i. omega arith) (omega arith)
