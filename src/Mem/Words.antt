-- ===== src/Mem/Words.antt =====
-- Little-endian words: encoding and decoding, and words read back from a page.
use native.Mathlib.Nat.{pow-suc}
use ink_db.Base.{
  ℕ, zero, suc, ◌+◌, ◌*◌, ◌/◌, ◌%◌, ◌^◌, ◌≤◌, ◌<◌, ◌≡◌, refl, ◌∙◌, ap, sym, ◌⊎◌, List, [], ◌∷◌,
  arith, length,
}
use ink_db.Mem.{
  RawPage, IsBytes, read_bytes, write_bytes, move_bytes, le_bytes, le_value, read_le, write_le,
}
use ink_db.Mem.Laws.{
  read_bytes-write_bytes, read_bytes-write_bytes_apart, read_bytes-move_bytes_apart,
  read_bytes-move_bytes,
}

pub length-le_bytes : (n v : ℕ) → length (le_bytes n v) ≡ n
length-le_bytes zero v = refl
length-le_bytes (suc n) v = ap suc (length-le_bytes n (v / 256))

pub le_bytes-IsBytes : (n v : ℕ) → IsBytes (le_bytes n v)
le_bytes-IsBytes zero v = tt
le_bytes-IsBytes (suc n) v = (omega arith, le_bytes-IsBytes n (v / 256))

-- The round trip of a number that fits in `n` bytes.
pub le_value-le_bytes : (n v : ℕ) → v < 256 ^ n → le_value (le_bytes n v) ≡ v
le_value-le_bytes zero v h = omega arith
le_value-le_bytes (suc n) v h =
    let b : v / 256 < 256 ^ n = omega (arith, pow-suc 256 n) in
    omega (arith, le_value-le_bytes n (v / 256) b)

pub le_bytes-le_value : (bs : List ℕ) → IsBytes bs → le_bytes (length bs) (le_value bs) ≡ bs
le_bytes-le_value [] h = refl
le_bytes-le_value (b ∷ bs) h =
    let low : (b + 256 * le_value bs) % 256 ≡ b = omega arith in
    let high : (b + 256 * le_value bs) / 256 ≡ le_value bs = omega arith in
    λ i. low i ∷ (ap (le_bytes (length bs)) high ∙ le_bytes-le_value bs h.1) i

-- A word that fits is read back from where it was written.
pub read_le-write_le :
    (n : ℕ) (m : RawPage) (o v : ℕ) → v < 256 ^ n → read_le n (write_le n m o v) o ≡ v
unfolding read_le write_le
read_le-write_le n m o v h =
    ap le_value (
      ap (λ k. read_bytes (write_bytes m o (le_bytes n v)) o k) (sym (length-le_bytes n v))
      ∙ read_bytes-write_bytes m o (le_bytes n v))
    ∙ le_value-le_bytes n v h

-- A word apart from the bytes that were written reads as before.
pub read_le-write_bytes_apart :
    (n : ℕ) (m : RawPage) (o : ℕ) (xs : List ℕ) (o' : ℕ)
    → (o' + n ≤ o) ⊎ (o + length xs ≤ o')
    → read_le n (write_bytes m o xs) o' ≡ read_le n m o'
unfolding read_le
read_le-write_bytes_apart n m o xs o' h = ap le_value (read_bytes-write_bytes_apart m o xs o' n h)

pub read_le-write_le_apart :
    (n k : ℕ) (m : RawPage) (o v o' : ℕ)
    → (o' + n ≤ o) ⊎ (o + k ≤ o')
    → read_le n (write_le k m o v) o' ≡ read_le n m o'
unfolding write_le
read_le-write_le_apart n k m o v o' h =
    read_le-write_bytes_apart n m o (le_bytes k v) o' (rw (length-le_bytes k v) h)

pub read_le-move_bytes_apart :
    (n : ℕ) (m : RawPage) (src dst k o : ℕ)
    → (o + n ≤ dst) ⊎ (dst + k ≤ o)
    → read_le n (move_bytes m src dst k) o ≡ read_le n m o
unfolding read_le
read_le-move_bytes_apart n m src dst k o h =
    ap le_value (read_bytes-move_bytes_apart m src dst k o n h)

-- A word inside the moved range reads as its source did.
pub read_le-move_bytes :
    (n : ℕ) (m : RawPage) (src dst k i : ℕ)
    → i + n ≤ k
    → read_le n (move_bytes m src dst k) (dst + i) ≡ read_le n m (src + i)
unfolding read_le
read_le-move_bytes n m src dst k i h = ap le_value (read_bytes-move_bytes m src dst k i n h)

pub le_value_lt : (bs : List ℕ) → IsBytes bs → le_value bs < 256 ^ length bs
le_value_lt [] h = omega arith
le_value_lt (b ∷ bs) h = omega (arith, pow-suc 256 (length bs), h.0, le_value_lt bs h.1)
