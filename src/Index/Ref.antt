-- ===== src/Index/Ref.antt =====
-- `IndexPageRef` (page/internal_page.rs): its own copies of the methods that read the header and the
-- right sibling.
use ink_db.Base.{ℕ, ◌+◌, Bool, false, not, ◌==◌, leb, length, Option, none, some, if◌then◌else◌}
use ink_db.Mem.{RawPage, le_value}
use ink_db.Outcome.{Profile, ok, err, fault, within, panicked, undefined}
use ink_db.Page.{PageId, index_level}
use ink_db.Page.Kind.{PageKind, page_kind, page_sub_type}
use ink_db.Slotted.Ref.{get_page_type, get_special_ref}
use ink_db.Index.{Indexed, right_sibling_offset}
use ink_db.Index.Sibling.{is_zero, sibling_bytes}

unfoldable pub kind : RawPage → PageKind
kind m = page_kind (get_page_type m)

-- `none` is the panic of `IndexLevel::new`.
unfoldable pub level : RawPage → Option ℕ
level m = index_level (page_sub_type (get_page_type m))

unfoldable pub has_right_sibling : Profile → Indexed Bool
has_right_sibling p m = elim (get_special_ref p m) [
  | ok special m' ↦
      within (leb (right_sibling_offset + 8) (length special)) panicked
        (not (is_zero (sibling_bytes special))) m'
  | err e m' ↦ ok false m'
  | fault x ↦ fault x
]

-- The eight bytes are read through a raw pointer: past the special area that is undefined.
unfoldable pub get_right_sibling : Profile → Indexed (Option PageId)
get_right_sibling p m = elim (get_special_ref p m) [
  | ok special m' ↦
      within (leb (right_sibling_offset + 8) (length special)) undefined
        (let sib = le_value (sibling_bytes special) in if sib == 0 then none else some sib) m'
  | err e m' ↦ ok none m'
  | fault x ↦ fault x
]
