-- ===== src/Tests/Own.antt =====
-- The tests of the code that run on one thread, on the model: those of page/slotted_page.rs, `test_bits`
-- of page/mod.rs, and that of buffer/page_frame.rs. Of what a test prints only the values are kept.
use ink_db.Base.{
  ℕ, zero, suc, ◌-◌, ◌≡◌, refl, Bool, true, false, ◌==◌, ◌&&◌, List, [], ◌∷◌, none, some,
}
use ink_db.Mem.{RawPage, page_size, read_le, read_bytes, write_le, write_bytes, move_bytes}
use ink_db.Outcome.{
  debug, Outcome, Method, ok, err, fault, panicked, exhausted, pure, crash, asks, assert_that,
  ◌>>=◌, ◌>>◌,
}
use ink_db.Page.Kind
use ink_db.Page.Kind.{PageKind, undefined, index_internal, into_u8}
use ink_db.Page.Flags
use ink_db.Page.Flags.{PageStates, fast_parent, has_overflow, has_flag, set_flag, extract_all_flags}
use ink_db.Slotted.{Slotted, PageError, SlotEntry, header_size}
use ink_db.Slotted.Header
use ink_db.Slotted.Header.{
  init_new, get_page_type, set_page_type, set_free_start, set_free_end, get_special_mut, free_start,
  free_end, increment_free_start,
}
use ink_db.Slotted.Dir
use ink_db.Slotted.Dir.{
  SlotRef, SlotDirIter, slot_count, iter, next_entry, slot_dir_ref, append_slot_entry,
  insert_slot_entry_at_index,
}
use ink_db.Slotted.Cells.{cell_start, add_cell_append_slot_entry, cell_slice_from_id}
use ink_db.Slotted.Ref
use ink_db.Index.Header as IndexHeader
use ink_db.Index.Ref as IndexRef
use ink_db.Buffer.Frame as Frame

abbrev zeroed : RawPage
zeroed i = 0

-- `.unwrap()`, and the tests' own `panic!` on an error
abbrev unwrap : {A : Type 0} → Slotted A → Slotted A
unwrap f m = elim (f m) [ ok a m' ↦ ok a m' | err e m' ↦ fault panicked | fault x ↦ fault x ]

-- a result that is not looked at
abbrev ignore : {E A : Type 0} → Method E A → Slotted (Unit {0})
ignore f m = elim (f m) [ ok a m' ↦ ok tt m' | err e m' ↦ ok tt m' | fault x ↦ fault x ]

-- `Ok(_) => panic!(..)`
abbrev refused : {A : Type 0} → Slotted A → Slotted (Unit {0})
refused f m = elim (f m) [ ok a m' ↦ fault panicked | err e m' ↦ ok tt m' | fault x ↦ fault x ]

-- the entries that a `for` loop over the directory sees
abbrev entries_from : ℕ → SlotDirIter → Slotted (List SlotEntry)
entries_from zero it = crash exhausted
entries_from (suc fuel) it = do
  r ← next_entry it
  let rest = entries_from fuel r.1
  elim r.0 [ none ↦ pure [] | some e ↦ do es ← rest; pure (e ∷ es) ]

abbrev entries : SlotRef → Slotted (List SlotEntry)
entries d = entries_from (suc (slot_count d)) (iter d)

-- `assert_vec[i]` has the length and the offset of the entry `i`, for each entry.
abbrev agree : List (ℕ × ℕ) → List SlotEntry → Bool
agree v [] = true
agree [] (e ∷ es) = false
agree ((size, offset) ∷ v) (e ∷ es) = (size == e.length) && (offset == e.offset) && agree v es

abbrev getters_and_setters : Slotted (Unit {0})
getters_and_setters = do
  init_new 255
  c_page_type ← asks get_page_type
  assert_that (c_page_type == 255)
  set_page_type 1
  page_type ← asks get_page_type
  assert_that (page_type == 1)
  c_free_start ← asks free_start
  assert_that (c_free_start == header_size)
  set_free_start debug 25
  start ← asks free_start
  assert_that (start == 25)
  c_free_end ← asks free_end
  assert_that (c_free_end == page_size)
  ignore (set_free_end debug (page_size - 10))
  end ← asks free_end
  assert_that (end == page_size - 10)

abbrev slot_dir : Slotted (Unit {0})
slot_dir = do
  init_new 255
  unwrap (append_slot_entry debug 100 12)
  unwrap (append_slot_entry debug 200 21)
  unwrap (append_slot_entry debug 300 22)
  sd ← Ref.slot_dir_ref debug
  es ← entries sd
  assert_that (agree ((100, 12) ∷ (200, 21) ∷ (300, 22) ∷ []) es)

abbrev check_undefined_special : Slotted (Unit {0})
check_undefined_special = do init_new 255; refused (get_special_mut debug)

abbrev check_insert_entry_at_index : Slotted (List SlotEntry)
check_insert_entry_at_index = do
  init_new 255
  unwrap (insert_slot_entry_at_index debug 0 (record { offset = 20; length = 10 }))
  unwrap (append_slot_entry debug 12 100)
  unwrap (append_slot_entry debug 15 150)
  unwrap (append_slot_entry debug 40 200)
  sd ← slot_dir_ref debug
  _ ← entries sd
  unwrap (insert_slot_entry_at_index debug 2 (record { offset = 50; length = 30 }))
  sd' ← slot_dir_ref debug
  entries sd'

-- "I am a cell"
abbrev text : List ℕ
text = 73 ∷ 32 ∷ 97 ∷ 109 ∷ 32 ∷ 97 ∷ 32 ∷ 99 ∷ 101 ∷ 108 ∷ 108 ∷ []

abbrev adding_cell_append : Slotted (List ℕ)
adding_cell_append = do
  init_new 255
  unwrap (add_cell_append_slot_entry debug text)
  cell_slice_from_id debug 0

abbrev test_bits : List PageStates
test_bits = extract_all_flags (set_flag (Flags.new fast_parent) has_overflow)

-- The kind of the page, and the kind that a reader of its frame sees.
abbrev get_internal_index_page : Slotted (PageKind × PageKind)
get_internal_index_page = do
  init_new (into_u8 undefined)
  ignore (IndexHeader.set_page_type index_internal)
  before ← asks IndexHeader.kind
  frame ← asks (Frame.new 10 index_internal)
  pure (before, IndexRef.kind (Frame.guard frame).page)

abbrev result : {A : Type 0} → Outcome PageError A → List A
result (ok a m) = a ∷ []
result _ = []

getters_and_setters_pass : result (getters_and_setters zeroed) ≡ tt ∷ []
unfolding init_new get_page_type set_page_type set_free_start set_free_end free_start free_end
    read_le read_bytes write_le write_bytes
getters_and_setters_pass = refl

slot_dir_passes : result (slot_dir zeroed) ≡ tt ∷ []
unfolding init_new set_page_type free_start free_end read_le read_bytes write_le write_bytes
    increment_free_start append_slot_entry slot_count iter next_entry Ref.slot_dir_ref
    Ref.free_start
slot_dir_passes = refl

special_is_refused : result (check_undefined_special zeroed) ≡ tt ∷ []
unfolding init_new set_page_type get_special_mut Header.get_special_offset read_le read_bytes
    write_le write_bytes
special_is_refused = refl

inserted_entries : List SlotEntry
inserted_entries =
    record { offset = 20; length = 10 }
    ∷ record { offset = 100; length = 12 }
    ∷ record { offset = 50; length = 30 }
    ∷ record { offset = 150; length = 15 }
    ∷ record { offset = 200; length = 40 }
    ∷ []

entry_is_inserted : result (check_insert_entry_at_index zeroed) ≡ inserted_entries ∷ []
unfolding init_new set_page_type free_start free_end read_le read_bytes write_le write_bytes
    move_bytes increment_free_start append_slot_entry insert_slot_entry_at_index Dir.shift_in
    slot_count iter next_entry slot_dir_ref inserted_entries
entry_is_inserted = refl

cell_is_read : result (adding_cell_append zeroed) ≡ text ∷ []
unfolding init_new set_page_type set_free_end free_start free_end read_le read_bytes write_le
    write_bytes increment_free_start append_slot_entry add_cell_append_slot_entry cell_start
    slot_count slot_dir_ref cell_slice_from_id
cell_is_read = refl

flags_are_listed : test_bits ≡ fast_parent ∷ has_overflow ∷ []
unfolding Flags.new Flags.push_all set_flag extract_all_flags has_flag
flags_are_listed = refl

kind_is_seen : result (get_internal_index_page zeroed) ≡ (index_internal, index_internal) ∷ []
unfolding init_new set_page_type get_page_type into_u8 Kind.page_kind IndexHeader.set_page_type
    IndexHeader.kind IndexRef.kind Ref.get_page_type Frame.new Frame.guard write_le write_bytes
kind_is_seen = refl
