-- ===== src/Slotted/Dir.antt =====
-- The slot directory (page/slotted_page.rs): `SlotRef`, `SlotDirIter`, and the two methods that
-- add an entry.
use ink_db.Base.{ℕ, ◌+◌, ◌-◌, ◌*◌, ◌/◌, Option, none, some, leb, ltb, ◌==◌, if◌then◌else◌}
use ink_db.Outcome.{
  Profile, pure, choose, ◌>>=◌, ◌>>◌, assert_that, fail_if, sub_usize, add_usize, asks, load, store,
  move_within,
}
use ink_db.Slotted.{
  Slotted, SlotEntry, slot_index_not_in_range, not_enough_free_space, entry_size, header_size,
}
use ink_db.Slotted.Header.{free_start, free_end, increment_free_start}

-- `SlotRef`; its pointer into the page is an offset.
pub record SlotRef : Type 0 where
  pub ptr : ℕ
  pub size : ℕ

unfoldable pub slot_count : SlotRef → ℕ
slot_count d = if d.size == 0 then 0 else d.size / entry_size

-- `SlotDirIter`
pub record SlotDirIter : Type 0 where
  pub ptr : ℕ
  pub size : ℕ
  pub pos : ℕ

unfoldable pub iter : SlotRef → SlotDirIter
iter d = record { ptr = d.ptr; size = d.size; pos = 0 }

abbrev pub read_entry : ℕ → Slotted SlotEntry
read_entry base = do
  offset ← load 2 base
  size ← load 2 (base + 2)
  pure (record { offset = offset; length = size })

unfoldable pub next_entry : SlotDirIter → Slotted (Option SlotEntry × SlotDirIter)
next_entry it =
    choose (leb (it.size / entry_size) it.pos) (pure (none, it)) do
      e ← read_entry (it.ptr + it.pos * entry_size)
      pure (some e, record it { pos = it.pos + 1 })

module _ (p : Profile) where
  unfoldable pub slot_dir_ref : Slotted SlotRef
  slot_dir_ref = do
    fs ← asks free_start
    assert_that (leb header_size fs)
    size ← sub_usize p fs header_size
    pure (record { ptr = header_size; size = size })

  unfoldable pub append_slot_entry : ℕ → ℕ → Slotted (Unit {0})
  append_slot_entry size offset = do
    fs ← asks free_start
    end ← asks free_end
    space ← sub_usize p end fs
    fail_if (ltb space entry_size) not_enough_free_space
    store 2 fs offset
    store 2 (fs + 2) size
    _ ← increment_free_start p entry_size
    pure tt

  -- the part of `insert_slot_entry_at_index` below an index that is not the last
  unfoldable pub shift_in : ℕ → SlotEntry → ℕ → Slotted (Unit {0})
  shift_in idx entry slot_count = do
    index_offset ← add_usize p header_size (idx * entry_size)
    move_within index_offset (index_offset + entry_size) ((slot_count - idx) * entry_size)
    store 2 index_offset entry.offset
    store 2 (index_offset + 2) entry.length
    _ ← increment_free_start p entry_size
    pure tt

  unfoldable pub insert_slot_entry_at_index : ℕ → SlotEntry → Slotted (Unit {0})
  insert_slot_entry_at_index idx entry = do
    old_fs ← asks free_start
    end ← asks free_end
    space ← sub_usize p end old_fs
    fail_if (ltb space entry_size) not_enough_free_space
    size ← sub_usize p old_fs header_size
    fail_if (ltb (size / entry_size) idx) slot_index_not_in_range
    choose (idx == size / entry_size) (append_slot_entry entry.length entry.offset)
        (shift_in idx entry (size / entry_size))
