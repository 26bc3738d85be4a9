-- ===== src/Page/Kind.antt =====
-- `PageKind` and `PageType` (src/page/mod.rs): the kind and the subtype of a page in one byte.
pub mod Laws
use Prim.Native.Nat.{bit_and, bit_or}
use ink_db.Base.{ℕ, Bool, true, false, ◌==◌, Option, none, some, if◌then◌else◌}
use ink_db.Base.Bytes.{bit_not, shift_left, shift_right}

pub data PageKind : Type 0 where
  heap index_internal index_mini_leaf index_leaf meta free undefined : PageKind

abbrev pub page_type_mask : ℕ
page_type_mask = 0b0000_1111

abbrev pub subtype_mask : ℕ
subtype_mask = 0b1111_0000

-- `kind as u8`, the discriminant
unfoldable pub discriminant : PageKind → ℕ
discriminant heap = 0x01
discriminant index_internal = 0x02
discriminant index_mini_leaf = 0x03
discriminant index_leaf = 0x04
discriminant meta = 0x05
discriminant free = 0x06
discriminant undefined = 0xff

-- `u8::from(kind)`, by the constants `PT_…`
unfoldable pub into_u8 : PageKind → ℕ
into_u8 undefined = 0
into_u8 heap = 1
into_u8 index_internal = 2
into_u8 index_mini_leaf = 3
into_u8 index_leaf = 4
into_u8 meta = 5
into_u8 free = 6

-- `PageKind::from_u8`
unfoldable pub from_u8 : ℕ → Option PageKind
from_u8 pt =
    if pt == 0
    then some undefined
    else if pt == 1
    then some heap
    else if pt == 2
    then some index_internal
    else if pt == 3
    then some index_mini_leaf
    else if pt == 4
    then some index_leaf
    else if pt == 5
    then some meta
    else if pt == 6
    then some free
    else none

unfoldable pub uses_slotted_page_layout : PageKind → Bool
uses_slotted_page_layout heap = false
uses_slotted_page_layout index_internal = true
uses_slotted_page_layout index_mini_leaf = true
uses_slotted_page_layout index_leaf = true
uses_slotted_page_layout meta = false
uses_slotted_page_layout free = false
uses_slotted_page_layout undefined = false

-- `PageType(u8)` is its byte. `PageType::new`:
unfoldable pub new : ℕ → ℕ → ℕ
new pt pst = bit_or (bit_and pt page_type_mask) (shift_left (bit_and pst page_type_mask) 16)

unfoldable pub page_type : ℕ → ℕ
page_type t = bit_and t page_type_mask

unfoldable pub page_kind : ℕ → PageKind
unfolding page_type from_u8
page_kind t = elim (from_u8 (page_type t)) [ some k ↦ k | none ↦ undefined ]

unfoldable pub page_sub_type : ℕ → ℕ
page_sub_type t = shift_right (bit_and t subtype_mask) 16

unfoldable pub set_page_type : ℕ → ℕ → ℕ
set_page_type t pt = bit_or (bit_and t (bit_not page_type_mask)) (bit_and pt page_type_mask)

unfoldable pub set_subtype_page_bits : ℕ → ℕ → ℕ
set_subtype_page_bits t pst =
    bit_or (bit_and t (bit_not subtype_mask)) (shift_left (bit_and pst page_type_mask) 16)
