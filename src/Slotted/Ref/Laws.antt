-- ===== src/Slotted/Ref/Laws.antt =====
-- `SlottedPageRef` reads what `SlottedPageMut` reads, and its `special_size`
-- (page/slotted_page.rs).
use ink_db.Base.{
  ℕ, ◌+◌, ◌-◌, ◌^◌, ◌≤◌, ◌<◌, ◌≡◌, refl, List, length, arith, dec_le, ◌≢◌, ℕ_discrete,
}
use ink_db.Mem.{IsRaw, RawPage, page_size, read_bytes, read_le}
use ink_db.Mem.Laws.{length-read_bytes}
use ink_db.Outcome.{Profile, debug, release, ok, err, fault, panicked}
use ink_db.Slotted.{SlotEntry, special_offset_is_zero}
use ink_db.Slotted.Header
use ink_db.Slotted.Dir
use ink_db.Slotted.Cells
use ink_db.Slotted.Ref.{
  free_start, get_special_offset, slot_dir_ref, cell_slice_from_id, cell_slice_from_entry,
  special_size, get_special_ref,
}

module _ (p : Profile) (m : RawPage) where
  pub special_offset-same : get_special_offset m ≡ Header.get_special_offset m
  unfolding get_special_offset Header.get_special_offset
  special_offset-same = refl

  pub slot_dir_ref-same : slot_dir_ref p m ≡ Dir.slot_dir_ref p m
  unfolding slot_dir_ref Dir.slot_dir_ref Header.free_start free_start
  slot_dir_ref-same = refl

  pub cell_slice_from_id-same : (i : ℕ) → cell_slice_from_id p i m ≡ Cells.cell_slice_from_id p i m
  unfolding cell_slice_from_id Cells.cell_slice_from_id slot_dir_ref Dir.slot_dir_ref
      Header.free_start free_start
  cell_slice_from_id-same i = refl

  pub cell_slice_from_entry-same :
      (e : SlotEntry) → cell_slice_from_entry p e m ≡ Cells.cell_slice_from_entry p e m
  unfolding cell_slice_from_entry Cells.cell_slice_from_entry
  cell_slice_from_entry-same e = refl

  pub get_special_ref-same : get_special_ref p m ≡ Header.get_special_ref p m
  unfolding get_special_ref Header.get_special_ref get_special_offset Header.get_special_offset
  get_special_ref-same = refl

-- What the special area is by its two readers, `special_size` and `get_special_ref`: none, its bytes, or
-- an offset past the page.
pub data SpecialArea (p : Profile) (m : RawPage) : Type 0 where
  absent :
      special_size p m ≡ ok 0 m
      → get_special_ref p m ≡ err special_offset_is_zero m
      → SpecialArea p m
  present :
      (bytes : List ℕ)
      → special_size p m ≡ ok (length bytes) m
      → get_special_ref p m ≡ ok bytes m
      → SpecialArea p m
  beyond : page_size < get_special_offset m → get_special_ref p m ≡ fault panicked → SpecialArea p m

offset-lt : (m : RawPage) → IsRaw m → get_special_offset m < 2 ^ 16
unfolding get_special_offset read_le read_bytes
offset-lt m raw = omega (arith, raw 16, raw 17)

module _ (m : RawPage) where
  area : List ℕ
  area =
      read_bytes m (get_special_offset m)
        (get_special_offset m + (page_size - get_special_offset m) - get_special_offset m)

  length-area : get_special_offset m ≤ page_size → length area ≡ page_size - get_special_offset m
  unfolding area
  length-area h = omega (
    arith,
    length-read_bytes m (get_special_offset m)
        (get_special_offset m + (page_size - get_special_offset m) - get_special_offset m),
  )

  no_area : (p : Profile) → get_special_offset m ≡ 0 → SpecialArea p m
  unfolding special_size get_special_ref
  no_area p e = absent (ground arith) (ground arith)

  some_area :
      (p : Profile) → get_special_offset m ≢ 0 → get_special_offset m ≤ page_size → SpecialArea p m
  unfolding special_size get_special_ref area
  some_area debug n h = present area (ground (arith, length-area h)) (ground arith)
  some_area release n h = present area (ground (arith, length-area h)) (ground arith)

  area_past :
      (p : Profile)
      → page_size < get_special_offset m
      → get_special_offset m < 2 ^ 16
      → SpecialArea p m
  unfolding get_special_ref
  area_past debug h l = beyond h (ground arith)
  area_past release h l = beyond h (ground arith)

-- On any bytes, in either build, `special_size` and `get_special_ref` agree on the special area: there is
-- none, or the size is that of the bytes, or the offset lies past the page and `get_special_ref` panics.
pub special_size-get_special_ref : (p : Profile) (m : RawPage) → IsRaw m → SpecialArea p m
special_size-get_special_ref p m raw = elim (ℕ_discrete (get_special_offset m) 0) [
  | yes e ↦ no_area m p e
  | no n ↦ elim (dec_le (get_special_offset m) page_size) [
    | yes h ↦ some_area m p n h
    | no g ↦ area_past m p (omega arith) (offset-lt m raw)
  ]
]
