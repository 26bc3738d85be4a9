-- ===== src/Slotted/Words.antt =====
-- Reading entries and cells of a page after the writes that add them (page/slotted_page.rs).
use native.Mathlib.Nat.{add-zero}
use ink_db.Base.{ℕ, ◌+◌, ◌-◌, ◌≤◌, ◌<◌, ◌≡◌, ◌∙◌, ◌⊎◌, List, arith, length}
use ink_db.Mem.{RawPage, page_size, read_bytes, read_le, write_le, write_bytes, le_bytes}
use ink_db.Mem.Laws.{read_bytes-write_bytes, read_bytes-write_bytes_apart, write_bytes_out}
use ink_db.Mem.Words.{
  read_le-write_le, read_le-write_le_apart, read_le-write_bytes_apart, length-le_bytes,
}
use ink_db.Outcome.{as_u16}
use ink_db.Slotted.Header.{free_end}
use ink_db.Slotted.Layout.{entry_base, entry_at}
use ink_db.Slotted.Effect.{with_entry}
use ink_db.Slotted.Place.{placed}

-- Where two of three ranges do not meet.
abbrev pub Apart : ℕ → ℕ → ℕ → ℕ → Type 0
Apart o n b k = (o + n ≤ b) ⊎ (b + k ≤ o)

-- Entries whose two words agree.
pub entry_at-eq :
    (m m' : RawPage) (i j : ℕ)
    → ((d : ℕ) → d ≤ 2 → read_le 2 m' (entry_base j + d) ≡ read_le 2 m (entry_base i + d))
    → entry_at m' j ≡ entry_at m i
unfolding entry_at
entry_at-eq m m' i j w =
    let first : read_le 2 m' (entry_base j) ≡ read_le 2 m (entry_base i) =
      simp add-zero at (w 0 (omega arith)) in
    λ t. record { offset = first t; length = w 2 (omega arith) t }

pub write_le_out :
    (n : ℕ) (m : RawPage) (o v j : ℕ) → (j < o) ⊎ (o + n ≤ j) → write_le n m o v j ≡ m j
unfolding write_le
write_le_out n m o v j h = write_bytes_out m o (le_bytes n v) j (rw (length-le_bytes n v) h)

-- reading a word through `with_entry`
module _ (m : RawPage) (base offset size : ℕ) where
  pub word-with_entry-Apart :
      (o : ℕ) → Apart o 2 base 4 → read_le 2 (with_entry m base offset size) o ≡ read_le 2 m o
  word-with_entry-Apart o h =
      read_le-write_le_apart 2 2 (write_le 2 m base offset) (base + 2) size o (omega arith)
      ∙ read_le-write_le_apart 2 2 m base offset o (omega arith)

  pub word-with_entry_offset :
      offset < 65536 → read_le 2 (with_entry m base offset size) base ≡ offset
  word-with_entry_offset h =
      read_le-write_le_apart 2 2 (write_le 2 m base offset) (base + 2) size base (omega arith)
      ∙ read_le-write_le 2 m base offset h

  pub word-with_entry_size :
      size < 65536 → read_le 2 (with_entry m base offset size) (base + 2) ≡ size
  word-with_entry_size h = read_le-write_le 2 (write_le 2 m base offset) (base + 2) size h

-- reading through `placed`, after the new `free_start`
module _ (m : RawPage) (end : ℕ) (cell : List ℕ) (fits : length cell ≤ end) where
  pub word-placed-Apart :
      (o : ℕ)
      → Apart o 2 14 2
      → Apart o 2 (end - length cell) (length cell)
      → read_le 2 (placed m end cell) o ≡ read_le 2 m o
  word-placed-Apart o h k =
      read_le-write_le_apart 2 2 (write_bytes m (end - length cell) cell) 14 _ o (omega arith)
      ∙ read_le-write_bytes_apart 2 m (end - length cell) cell o k

  pub free_end-placed : end ≤ page_size → free_end (placed m end cell) ≡ end - length cell
  unfolding free_end
  free_end-placed h =
      read_le-write_le 2 (write_bytes m (end - length cell) cell) 14 (as_u16 (end - length cell))
        (omega arith)
      ∙ omega arith

  pub body-placed :
      16 ≤ end - length cell
      → read_bytes (placed m end cell) (end - length cell) (length cell) ≡ cell
  unfolding write_le
  body-placed h =
      read_bytes-write_bytes_apart (write_bytes m (end - length cell) cell) 14
        (le_bytes 2 (as_u16 (end - length cell))) (end - length cell) (length cell) (omega arith)
      ∙ read_bytes-write_bytes m (end - length cell) cell

  pub kept-placed : (j : ℕ) → 16 ≤ j → end ≤ j → placed m end cell j ≡ m j
  kept-placed j h l =
      write_le_out 2 (write_bytes m (end - length cell) cell) 14 _ j (omega arith)
      ∙ write_bytes_out m (end - length cell) cell j (omega arith)
