-- ===== src/Mem.antt =====
-- The bytes of a page (src/page/mod.rs): `RawPage` and the little-endian reads and writes on it.
-- A page is a function from offsets; every access of the code checks its offset against
-- `page_size` (Outcome.antt), so the values from 4096 on are never read.
pub mod Laws
pub mod Words
pub mod Slices
use ink_db.Base.{
  ℕ, zero, suc, ◌+◌, ◌-◌, ◌*◌, ◌/◌, ◌%◌, ◌<◌, List, [], ◌∷◌, Bool, ◌&&◌, leb, ltb, length, get_or,
  tabulate, if◌then◌else◌,
}

-- `[u8; 4096]`
abbrev pub RawPage : Type 0
RawPage = ℕ → ℕ

abbrev pub page_size : ℕ
page_size = 4096

-- Every byte of a page or a slice is a `u8`.
abbrev pub IsRaw : RawPage → Type 0
IsRaw m = (i : ℕ) → m i < 256

abbrev pub IsBytes : List ℕ → Type 0
IsBytes [] = Unit
IsBytes (b ∷ bs) = (b < 256) × IsBytes bs

-- Does the range of `n` bytes from `o` on hold the offset `i`?
abbrev pub in_range : ℕ → ℕ → ℕ → Bool
in_range o n i = leb o i && ltb i (o + n)

-- the bytes `m[o..o + n]`
unfoldable pub read_bytes : RawPage → ℕ → ℕ → List ℕ
read_bytes m o n = tabulate n (λ i. m (o + i))

-- `ptr::copy_nonoverlapping` from a slice to offset `o`, and `copy_from_slice`
unfoldable pub write_bytes : RawPage → ℕ → List ℕ → RawPage
write_bytes m o xs i = if in_range o (length xs) i then get_or xs (i - o) 0 else m i

-- `ptr::copy` within the page: the source is read before the target is written.
unfoldable pub move_bytes : RawPage → ℕ → ℕ → ℕ → RawPage
move_bytes m src dst n i = if in_range dst n i then m (src + (i - dst)) else m i

-- `to_le_bytes` of a number of `n` bytes
abbrev pub le_bytes : ℕ → ℕ → List ℕ
le_bytes zero v = []
le_bytes (suc n) v = (v % 256) ∷ le_bytes n (v / 256)

-- `from_le_bytes`
abbrev pub le_value : List ℕ → ℕ
le_value [] = 0
le_value (b ∷ bs) = b + 256 * le_value bs

-- `read_u16_le_unsafe`, `read_u64_le_unsafe` at the width `n`
unfoldable pub read_le : ℕ → RawPage → ℕ → ℕ
unfolding read_bytes
read_le n m o = le_value (read_bytes m o n)

-- `write_u16_le_unsafe`, `write_u64_le_unsafe` at the width `n`
unfoldable pub write_le : ℕ → RawPage → ℕ → ℕ → RawPage
unfolding write_bytes
write_le n m o v = write_bytes m o (le_bytes n v)
