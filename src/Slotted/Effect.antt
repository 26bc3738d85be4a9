-- ===== src/Slotted/Effect.antt =====
-- What the methods that add do to a well-formed page: no fault, the errors, and the page left.
use ink_db.Base.{ℕ, ◌+◌, ◌-◌, ◌*◌, ◌≤◌, ◌<◌, ◌≡◌, ◌∙◌, arith, ltb, if◌then◌else◌, ◌==◌}
use ink_db.Mem.{RawPage, page_size, write_le, move_bytes}
use ink_db.Mem.Words.{read_le-write_le, read_le-write_le_apart, read_le-move_bytes_apart}
use ink_db.Outcome.{Profile, debug, release, ok, err, as_u16}
use ink_db.Slotted.{
  SlotEntry, not_enough_free_space, slot_index_not_in_range, header_size, entry_size,
  free_start_offset,
}
use ink_db.Slotted.Header.{free_start, free_end, increment_free_start}
use ink_db.Slotted.Dir.{append_slot_entry, shift_in, insert_slot_entry_at_index}
use ink_db.Slotted.Layout.{entry_total, entry_base}

-- a page with an entry at `base`
abbrev pub with_entry : RawPage → ℕ → ℕ → ℕ → RawPage
with_entry m base offset size = write_le 2 (write_le 2 m base offset) (base + 2) size

pub free_start-with_entry :
    (m : RawPage) (base offset size : ℕ)
    → header_size ≤ base
    → free_start (with_entry m base offset size) ≡ free_start m
unfolding free_start
free_start-with_entry m base offset size h =
    read_le-write_le_apart 2 2 (write_le 2 m base offset) (base + 2) size 12 (omega arith)
    ∙ read_le-write_le_apart 2 2 m base offset 12 (omega arith)

pub free_end-with_entry :
    (m : RawPage) (base offset size : ℕ)
    → header_size ≤ base
    → free_end (with_entry m base offset size) ≡ free_end m
unfolding free_end
free_end-with_entry m base offset size h =
    read_le-write_le_apart 2 2 (write_le 2 m base offset) (base + 2) size 14 (omega arith)
    ∙ read_le-write_le_apart 2 2 m base offset 14 (omega arith)

increment_lem :
    (p : Profile) (m : RawPage) (n : ℕ)
    → header_size ≤ free_start m
    → free_start m + n ≤ free_end m
    → free_end m ≤ page_size
    → increment_free_start p n m
      ≡ ok (free_start m + n) (write_le 2 m free_start_offset (as_u16 (free_start m + n)))
unfolding increment_free_start
increment_lem debug m n a b c = ground arith
increment_lem release m n a b c = ground arith

-- the page that `append_slot_entry` leaves
abbrev pub appended : RawPage → ℕ → ℕ → RawPage
appended m size offset =
    write_le 2 (with_entry m (free_start m) offset size) free_start_offset
      (as_u16 (free_start m + entry_size))

pub append_slot_entry_effect :
    (p : Profile) (m : RawPage) (size offset : ℕ)
    → header_size ≤ free_start m
    → free_start m ≤ free_end m
    → free_end m ≤ page_size
    → append_slot_entry p size offset m ≡ (
        if ltb (free_end m - free_start m) entry_size
        then err not_enough_free_space m
        else ok tt (appended m size offset))
unfolding append_slot_entry
append_slot_entry_effect p m size offset a b c = ground (
  arith,
  free_start-with_entry m (free_start m) offset size a,
  free_end-with_entry m (free_start m) offset size a,
  increment_lem p (with_entry m (free_start m) offset size) entry_size,
)

-- the page with the directory from `idx` on moved up, and an entry at `idx`
abbrev pub moved : RawPage → ℕ → RawPage
moved m idx =
    move_bytes m (entry_base idx) (entry_base idx + entry_size) ((entry_total m - idx) * entry_size)

abbrev pub shifted : RawPage → ℕ → ℕ → ℕ → RawPage
shifted m idx size offset =
    write_le 2 (with_entry (moved m idx) (entry_base idx) offset size) free_start_offset
      (as_u16 (free_start m + entry_size))

free_start-moved : (m : RawPage) (idx : ℕ) → free_start (moved m idx) ≡ free_start m
unfolding free_start
free_start-moved m idx = read_le-move_bytes_apart 2 m _ _ _ 12 (omega arith)

free_end-moved : (m : RawPage) (idx : ℕ) → free_end (moved m idx) ≡ free_end m
unfolding free_end
free_end-moved m idx = read_le-move_bytes_apart 2 m _ _ _ 14 (omega arith)

shift_in_effect :
    (p : Profile) (m : RawPage) (idx : ℕ) (e : SlotEntry)
    → header_size ≤ free_start m
    → free_start m + entry_size ≤ free_end m
    → free_end m ≤ page_size
    → idx < entry_total m
    → shift_in p idx e (entry_total m) m ≡ ok tt (shifted m idx e.length e.offset)
unfolding shift_in
shift_in_effect p m idx e a b c d = ground (
  arith,
  free_start-with_entry (moved m idx) (entry_base idx) e.offset e.length,
  free_end-with_entry (moved m idx) (entry_base idx) e.offset e.length,
  free_start-moved m idx,
  free_end-moved m idx,
  increment_lem p (with_entry (moved m idx) (entry_base idx) e.offset e.length) entry_size,
)

pub insert_slot_entry_at_index_effect :
    (p : Profile) (m : RawPage) (idx : ℕ) (e : SlotEntry)
    → header_size ≤ free_start m
    → free_start m + entry_size ≤ free_end m
    → free_end m ≤ page_size
    → insert_slot_entry_at_index p idx e m ≡ (
        if ltb (entry_total m) idx
        then err slot_index_not_in_range m
        else if idx == entry_total m
        then ok tt (appended m e.length e.offset)
        else ok tt (shifted m idx e.length e.offset))
unfolding insert_slot_entry_at_index
insert_slot_entry_at_index_effect p m idx e a b c =
    ground (arith, append_slot_entry_effect p m e.length e.offset, shift_in_effect p m idx e)

-- `free_start` after the new entry
abbrev pub Grown : RawPage → RawPage → Type 0
Grown m m' = free_start m' ≡ free_start m + entry_size

pub free_start-appended :
    (m : RawPage) (size offset : ℕ)
    → free_start m + entry_size ≤ page_size
    → Grown m (appended m size offset)
unfolding free_start
free_start-appended m size offset h =
    read_le-write_le 2 (with_entry m (free_start m) offset size) 12
      (as_u16 (free_start m + entry_size)) (omega arith)
    ∙ omega arith

pub free_start-shifted :
    (m : RawPage) (idx size offset : ℕ)
    → free_start m + entry_size ≤ page_size
    → Grown m (shifted m idx size offset)
unfolding free_start
free_start-shifted m idx size offset h =
    read_le-write_le 2 (with_entry (moved m idx) (entry_base idx) offset size) 12
      (as_u16 (free_start m + entry_size)) (omega arith)
    ∙ omega arith
