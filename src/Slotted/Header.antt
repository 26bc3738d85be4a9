-- ===== src/Slotted/Header.antt =====
-- The header methods of `SlottedPageMut` and `SlottedPageRef` (page/slotted_page.rs).
use ink_db.Base.{ℕ, ◌+◌, ◌-◌, List, [], ◌∷◌, leb, ltb, ◌==◌, ◌||◌}
use ink_db.Mem.{RawPage, page_size, read_le}
use ink_db.Outcome.{
  Profile, ok, pure, ◌>>=◌, ◌>>◌, assert_that, debug_assert, fail_if, sub_usize, add_usize, as_u16,
  asks, slice, store, store_bytes,
}
use ink_db.Slotted.{
  Slotted, special_offset_is_zero, invalid_free_end, invalid_free_start, lsn_offset,
  page_type_offset, flags_offset, free_start_offset, free_end_offset, special_offset, header_size,
}

unfoldable pub wipe_page : Slotted (Unit {0})
wipe_page m = ok tt (λ _. 0)

unfoldable pub set_page_type : ℕ → Slotted (Unit {0})
set_page_type t = store_bytes page_type_offset (t ∷ [])

unfoldable pub get_page_type : RawPage → ℕ
get_page_type m = m page_type_offset

unfoldable pub free_start : RawPage → ℕ
free_start m = read_le 2 m free_start_offset

unfoldable pub free_end : RawPage → ℕ
free_end m = read_le 2 m free_end_offset

unfoldable pub get_special_offset : RawPage → ℕ
get_special_offset m = read_le 2 m special_offset

unfoldable pub get_flags : RawPage → ℕ
get_flags m = m flags_offset

unfoldable pub get_lsn : RawPage → ℕ
get_lsn m = read_le 8 m lsn_offset

unfoldable pub set_flags : ℕ → Slotted (Unit {0})
set_flags f = store_bytes flags_offset (f ∷ [])

unfoldable pub set_lsn : ℕ → Slotted (Unit {0})
set_lsn v = store 8 lsn_offset v

unfoldable pub set_special_offset : ℕ → Slotted (Unit {0})
set_special_offset special = do
  assert_that (ltb special page_size)
  store 2 special_offset (page_size - special)

-- Unfinished: no space is counted.
unfoldable pub free_fragmented_space : RawPage → ℕ
free_fragmented_space m = 0

-- `init_new`: the bytes that it does not name are left as they were.
unfoldable pub init_new : ℕ → Slotted (Unit {0})
unfolding set_page_type
init_new page_type = do
  store_bytes page_type_offset (0xff ∷ [])
  store 2 free_start_offset header_size
  store 2 free_end_offset page_size
  set_page_type page_type

module _ (p : Profile) where
  unfoldable pub free_contiguous_space : Slotted ℕ
  free_contiguous_space = do end ← asks free_end; start ← asks free_start; sub_usize p end start

  unfoldable pub set_free_start : ℕ → Slotted (Unit {0})
  set_free_start offset = do
    debug_assert p (leb header_size offset)
    debug_assert p (leb offset page_size)
    store 2 free_start_offset (as_u16 offset)

  unfoldable pub increment_free_start : ℕ → Slotted ℕ
  increment_free_start bytes = do
    start ← asks free_start
    end ← asks free_end
    next ← add_usize p start bytes
    debug_assert p (leb next end)
    debug_assert p (leb header_size next)
    fail_if (ltb next header_size) invalid_free_start
    store 2 free_start_offset (as_u16 next)
    pure next

  unfoldable pub set_free_end : ℕ → Slotted (Unit {0})
  set_free_end offset = do
    debug_assert p (leb header_size offset)
    start ← asks free_start
    fail_if (ltb offset start || ltb offset header_size) invalid_free_end
    store 2 free_end_offset (as_u16 offset)

  -- the bytes from the special offset to the end of the page
  unfoldable pub get_special_ref : Slotted (List ℕ)
  get_special_ref = do
    s ← asks get_special_offset
    fail_if (s == 0) special_offset_is_zero
    size ← sub_usize p page_size s
    assert_that (leb size page_size)
    slice s (s + size)

  -- The slice that is borrowed for writing, as its offset and its size.
  unfoldable pub get_special_mut : Slotted (ℕ × ℕ)
  get_special_mut = do
    s ← asks get_special_offset
    fail_if (s == 0) special_offset_is_zero
    size ← sub_usize p page_size s
    assert_that (leb size page_size)
    assert_that (leb (s + size) page_size)
    pure (s, size)
