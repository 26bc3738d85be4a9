-- ===== src/Page/Flags.antt =====
-- `PageStates` and `PageFlags` (src/page/mod.rs): the flags of a page as the bits of a byte.
pub mod Laws
use Prim.Native.Nat.{bit_and, bit_or}
use ink_db.Base.{
  ℕ, Bool, true, false, not, ◌==◌, Option, none, some, List, [], ◌∷◌, ◌++◌, if◌then◌else◌,
}
use ink_db.Base.Bytes.{bit_not}

pub data PageStates : Type 0 where
  no_state fast_parent deleted half_deleted incomplete_split has_overflow : PageStates

-- `PageStates::bit`
unfoldable pub bit : PageStates → ℕ
bit no_state = 0
bit fast_parent = 0b0_0001
bit deleted = 0b0_0010
bit half_deleted = 0b0_0100
bit incomplete_split = 0b0_1000
bit has_overflow = 0b1_0000

-- `PageStates::from_u8`
unfoldable pub from_u8 : ℕ → Option PageStates
from_u8 pf =
    if pf == 0b0_0001
    then some fast_parent
    else if pf == 0b0_0010
    then some deleted
    else if pf == 0b0_0100
    then some half_deleted
    else if pf == 0b0_1000
    then some incomplete_split
    else if pf == 0b1_0000
    then some has_overflow
    else none

-- `PageFlags(u8)` is its byte. `PageFlags::new`:
unfoldable pub new : PageStates → ℕ
unfolding bit
new pf = bit pf

unfoldable pub set_flag : ℕ → PageStates → ℕ
unfolding bit
set_flag f pf = bit_or f (bit pf)

unfoldable pub clear_flag : ℕ → PageStates → ℕ
unfolding bit
clear_flag f pf = bit_and f (bit_not (bit pf))

unfoldable pub has_flag : ℕ → PageStates → Bool
unfolding bit
has_flag f pf = not (bit_and f (bit pf) == 0)

-- `if self.has_flag(..) { flags.push(..) }`
abbrev pub push_if : Bool → PageStates → List PageStates → List PageStates
push_if true s flags = flags ++ (s ∷ [])
push_if false s flags = flags

-- The body of `extract_all_flags`, on the results of its five calls of `has_flag`.
unfoldable pub push_all : Bool → Bool → Bool → Bool → Bool → List PageStates
push_all has_fast has_deleted has_half has_incomplete has_over =
    let a = push_if has_fast fast_parent [] in
    let b = push_if has_deleted deleted a in
    let c = push_if has_half deleted b in
    let d = push_if has_incomplete incomplete_split c in push_if has_over has_overflow d

unfoldable pub extract_all_flags : ℕ → List PageStates
extract_all_flags f =
    push_all (has_flag f fast_parent) (has_flag f deleted) (has_flag f half_deleted)
      (has_flag f incomplete_split) (has_flag f has_overflow)
