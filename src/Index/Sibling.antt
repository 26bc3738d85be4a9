-- ===== src/Index/Sibling.antt =====
-- The right sibling of an index page, the last eight bytes of its special area
-- (page/internal_page.rs).
use ink_db.Base.{ℕ, ◌+◌, List, [], ◌∷◌, Bool, true, false, not, ◌&&◌, ◌==◌, leb, length, take, drop}
use ink_db.Mem.{write_bytes, le_bytes}
use ink_db.Outcome.{Profile, ok, err, fault, within, panicked}
use ink_db.Page.{PageId}
use ink_db.Slotted.Header.{get_special_ref, get_special_mut}
use ink_db.Index.{Indexed, right_sibling_offset}

abbrev pub is_zero : List ℕ → Bool
is_zero [] = true
is_zero (b ∷ bs) = (b == 0) && is_zero bs

-- the bytes `special[8..16]`
abbrev pub sibling_bytes : List ℕ → List ℕ
sibling_bytes special = take 8 (drop right_sibling_offset special)

-- A page with no special area is left alone.
unfoldable pub set_right_sibling : Profile → PageId → Indexed (Unit {0})
set_right_sibling p id m = elim (get_special_mut p m) [
  | ok (s, size) m' ↦
      within (leb (right_sibling_offset + 8) size) panicked tt
        (write_bytes m' (s + right_sibling_offset) (le_bytes 8 id))
  | err e m' ↦ ok tt m'
  | fault x ↦ fault x
]

unfoldable pub has_right_sibling : Profile → Indexed Bool
has_right_sibling p m = elim (get_special_ref p m) [
  | ok special m' ↦
      within (leb (right_sibling_offset + 8) (length special)) panicked
        (not (is_zero (sibling_bytes special))) m'
  | err e m' ↦ ok false m'
  | fault x ↦ fault x
]
