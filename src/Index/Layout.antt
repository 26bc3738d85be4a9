-- ===== src/Index/Layout.antt =====
-- Well-formed index pages: the cells parse, and the special area is the last sixteen bytes.
use ink_db.Base.{
  ℕ, ◌+◌, ◌-◌, ◌<◌, ◌≡◌, ap, refl, ◌∙◌, List, [], ◌∷◌, arith, ◌==◌, none, some, if◌then◌else◌, not,
}
use ink_db.Mem.{RawPage, page_size, read_bytes, le_value}
use ink_db.Outcome.{Profile, ok}
use ink_db.Page.{PageId}
use ink_db.Slotted.Header.{get_special_offset, get_special_ref}
use ink_db.Slotted.Ref as SlottedRef
use ink_db.Slotted.Layout.{IsSlotted, entry_total, cell_at}
use ink_db.Index.{index_special_size}
use ink_db.Index.Cell.Laws.{IsCell}
use ink_db.Index.Sibling.{is_zero, sibling_bytes, has_right_sibling}
use ink_db.Index.Ref
use ink_db.Index.Ref.{get_right_sibling}
use ink_db.Slotted.Ref.Laws.{get_special_ref-same}

-- where the special area starts
abbrev pub special_start : ℕ
special_start = page_size - index_special_size

pub record IsIndexPage (m : RawPage) : Type 0 where
  pub slotted : IsSlotted special_start m
  pub special : get_special_offset m ≡ special_start
  pub parsed : (i : ℕ) → i < entry_total m → IsCell (cell_at m i)

-- the number in the last eight bytes
unfoldable pub sibling : RawPage → PageId
sibling m = le_value (read_bytes m (special_start + 8) 8)

is_zero-le_value : (bs : List ℕ) → is_zero bs ≡ (le_value bs == 0)
is_zero-le_value [] = refl
is_zero-le_value (b ∷ bs) = ground (arith, is_zero-le_value bs)

module _ (p : Profile) (m : RawPage) (special : get_special_offset m ≡ special_start) where
  special_lem : get_special_ref p m ≡ ok (read_bytes m special_start index_special_size) m
  unfolding get_special_ref
  special_lem = ground arith

  pub has_right_sibling_lem : has_right_sibling p m ≡ ok (not (sibling m == 0)) m
  unfolding has_right_sibling sibling read_bytes
  has_right_sibling_lem =
      rw (special_lem, has_right_sibling)
        (ap (λ b. ok (not b) m)
          (is_zero-le_value (sibling_bytes (read_bytes m special_start index_special_size))))

  special_ref_lem :
      SlottedRef.get_special_ref p m ≡ ok (read_bytes m special_start index_special_size) m
  special_ref_lem = get_special_ref-same p m ∙ special_lem

  pub ref_has_right_sibling_lem : Ref.has_right_sibling p m ≡ ok (not (sibling m == 0)) m
  unfolding Ref.has_right_sibling sibling read_bytes
  ref_has_right_sibling_lem =
      rw (special_ref_lem, Ref.has_right_sibling)
        (ap (λ b. ok (not b) m)
          (is_zero-le_value (sibling_bytes (read_bytes m special_start index_special_size))))

  pub get_right_sibling_lem :
      get_right_sibling p m ≡ ok (if sibling m == 0 then none else some (sibling m)) m
  unfolding get_right_sibling sibling read_bytes
  get_right_sibling_lem = rw (special_ref_lem, get_right_sibling)
