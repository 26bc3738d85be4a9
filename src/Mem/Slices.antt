-- ===== src/Mem/Slices.antt =====
-- `read_u16_le` and `write_u16_le` of src/page/mod.rs, which take a slice and check its length, and the
-- accessors through raw pointers.
use ink_db.Base.{
  ℕ, suc, ◌+◌, ◌≡◌, List, ◌++◌, Option, none, some, arith, leb, length, take, drop, tabulate,
  tabulate-cong, ◌/◌, ◌%◌, if◌then◌else◌,
}
use ink_db.Mem.{RawPage, read_bytes, read_le, write_bytes, write_le, le_bytes, le_value}
use ink_db.Mem.Laws.{write_bytes_in, write_bytes_out}

-- `none` is the panic of the range `..2`.
unfoldable pub read_u16_le : List ℕ → Option ℕ
read_u16_le bytes = if leb 2 (length bytes) then some (le_value (take 2 bytes)) else none

-- the slice after it
unfoldable pub write_u16_le : List ℕ → ℕ → Option (List ℕ)
write_u16_le bytes v = if leb 2 (length bytes) then some (le_bytes 2 v ++ drop 2 bytes) else none

-- The slice of at least two bytes of a page, read and written.
pub read_u16_le-read_le :
    (m : RawPage) (o n : ℕ) → read_u16_le (read_bytes m o (suc (suc n))) ≡ some (read_le 2 m o)
unfolding read_u16_le read_le read_bytes
read_u16_le-read_le m o n = ground arith

pub write_u16_le-write_le :
    (m : RawPage) (o n v : ℕ)
    → write_u16_le (read_bytes m o (suc (suc n))) v
      ≡ some (read_bytes (write_le 2 m o v) o (suc (suc n)))
unfolding write_u16_le read_bytes write_le
write_u16_le-write_le m o n v =
    let bs : List ℕ = le_bytes 2 v in
    let first : write_bytes m o bs (o + 0) ≡ v % 256 = write_bytes_in m o bs 0 (omega arith) in
    let second : write_bytes m o bs (o + 1) ≡ v / 256 % 256 =
      write_bytes_in m o bs 1 (omega arith) in
    let rest : tabulate n (λ i. write_bytes m o bs (o + suc (suc i)))
        ≡ tabulate n (λ i. m (o + suc (suc i))) =
      tabulate-cong n (λ i. write_bytes m o bs (o + suc (suc i))) (λ i. m (o + suc (suc i)))
        (λ i h. write_bytes_out m o bs (o + suc (suc i)) (omega arith)) in
    ground (arith, first, second, rest)
