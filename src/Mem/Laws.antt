-- ===== src/Mem/Laws.antt =====
-- Reading a page after writing it: `read_bytes` against `write_bytes` and `move_bytes`.
use native.Mathlib.Nat.{add_assoc}
use ink_db.Base.{
  ℕ, zero, suc, ◌+◌, ◌-◌, ◌≤◌, ◌<◌, ◌≡◌, ◌∙◌, ◌⊎◌, List, [], ◌∷◌, arith, length, get_or,
  tabulate-cong, tabulate-get_or, length-tabulate,
}
use ink_db.Mem.{RawPage, IsRaw, IsBytes, read_bytes, write_bytes, move_bytes}

pub length-read_bytes : (m : RawPage) (o n : ℕ) → length (read_bytes m o n) ≡ n
unfolding read_bytes
length-read_bytes m o n = length-tabulate n (λ i. m (o + i))

-- Two pages that agree on a range read the same there.
pub read_bytes-cong :
    (m m' : RawPage) (o o' n : ℕ)
    → ((i : ℕ) → i < n → m (o + i) ≡ m' (o' + i))
    → read_bytes m o n ≡ read_bytes m' o' n
unfolding read_bytes
read_bytes-cong m m' o o' n h = tabulate-cong n (λ i. m (o + i)) (λ i. m' (o' + i)) h

-- a byte inside the range that was written, and one outside
pub write_bytes_in :
    (m : RawPage) (o : ℕ) (xs : List ℕ) (i : ℕ)
    → i < length xs
    → write_bytes m o xs (o + i) ≡ get_or xs i 0
unfolding write_bytes
write_bytes_in m o xs i h = let e : o + i - o ≡ i = omega arith in ground arith

pub write_bytes_out :
    (m : RawPage) (o : ℕ) (xs : List ℕ) (i : ℕ)
    → (i < o) ⊎ (o + length xs ≤ i)
    → write_bytes m o xs i ≡ m i
unfolding write_bytes
write_bytes_out m o xs i h = ground arith

pub move_bytes_in :
    (m : RawPage) (src dst n i : ℕ) → i < n → move_bytes m src dst n (dst + i) ≡ m (src + i)
unfolding move_bytes
move_bytes_in m src dst n i h = let e : dst + i - dst ≡ i = omega arith in ground arith

pub move_bytes_out :
    (m : RawPage) (src dst n i : ℕ) → (i < dst) ⊎ (dst + n ≤ i) → move_bytes m src dst n i ≡ m i
unfolding move_bytes
move_bytes_out m src dst n i h = ground arith

-- What was written is read back.
pub read_bytes-write_bytes :
    (m : RawPage) (o : ℕ) (xs : List ℕ) → read_bytes (write_bytes m o xs) o (length xs) ≡ xs
unfolding read_bytes
read_bytes-write_bytes m o xs =
    tabulate-cong (length xs) (λ i. write_bytes m o xs (o + i)) (λ i. get_or xs i 0)
      (λ i h. write_bytes_in m o xs i h)
    ∙ tabulate-get_or xs 0

-- A range apart from the one that was written reads as before.
pub read_bytes-write_bytes_apart :
    (m : RawPage) (o : ℕ) (xs : List ℕ) (o' n : ℕ)
    → (o' + n ≤ o) ⊎ (o + length xs ≤ o')
    → read_bytes (write_bytes m o xs) o' n ≡ read_bytes m o' n
read_bytes-write_bytes_apart m o xs o' n h =
    read_bytes-cong (write_bytes m o xs) m o' o' n
      (λ i l. write_bytes_out m o xs (o' + i) (omega arith))

-- So for a move: apart from the target as before, and inside it as the source was.
pub read_bytes-move_bytes_apart :
    (m : RawPage) (src dst k o n : ℕ)
    → (o + n ≤ dst) ⊎ (dst + k ≤ o)
    → read_bytes (move_bytes m src dst k) o n ≡ read_bytes m o n
read_bytes-move_bytes_apart m src dst k o n h =
    read_bytes-cong (move_bytes m src dst k) m o o n
      (λ i l. move_bytes_out m src dst k (o + i) (omega arith))

pub read_bytes-move_bytes :
    (m : RawPage) (src dst k i n : ℕ)
    → i + n ≤ k
    → read_bytes (move_bytes m src dst k) (dst + i) n ≡ read_bytes m (src + i) n
read_bytes-move_bytes m src dst k i n h =
    read_bytes-cong (move_bytes m src dst k) m (dst + i) (src + i) n (λ j l.
      rw (add_assoc dst i j, add_assoc src i j) (move_bytes_in m src dst k (i + j) (omega arith)))

get_or-IsBytes : (xs : List ℕ) (i : ℕ) → IsBytes xs → get_or xs i 0 < 256
get_or-IsBytes [] i h = omega arith
get_or-IsBytes (x ∷ xs) zero h = h.0
get_or-IsBytes (x ∷ xs) (suc i) h = get_or-IsBytes xs i h.1

pub write_bytes-IsRaw :
    (m : RawPage) (o : ℕ) (xs : List ℕ) → IsRaw m → IsBytes xs → IsRaw (write_bytes m o xs)
unfolding write_bytes
write_bytes-IsRaw m o xs raw h i = ground (arith, raw i, get_or-IsBytes xs (i - o) h)

pub move_bytes-IsRaw : (m : RawPage) (src dst n : ℕ) → IsRaw m → IsRaw (move_bytes m src dst n)
unfolding move_bytes
move_bytes-IsRaw m src dst n raw i = ground (arith, raw i, raw (src + (i - dst)))
