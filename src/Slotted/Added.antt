-- ===== src/Slotted/Added.antt =====
-- The pages that the two methods leave extend the page that they were given.
use ink_db.Base.{ℕ, suc, ◌+◌, ◌-◌, ◌*◌, ◌≤◌, ◌<◌, ◌≡◌, refl, ◌∙◌, List, arith, length}
use ink_db.Mem.{RawPage, read_le, write_le, write_bytes}
use ink_db.Mem.Laws.{write_bytes_out, move_bytes_out}
use ink_db.Mem.Words.{
  read_le-write_le, read_le-write_le_apart, read_le-move_bytes, read_le-move_bytes_apart,
}
use ink_db.Outcome.{as_u16}
use ink_db.Slotted.{header_size, entry_size, free_start_offset}
use ink_db.Slotted.Header.{free_start, free_end}
use ink_db.Slotted.Layout.{entry_total, entry_base, entry_at, IsSlotted}
use ink_db.Slotted.Effect.{with_entry, appended, moved, shifted}
use ink_db.Slotted.Place.{HasRoom, placed}
use ink_db.Slotted.Extend.{Extends, HeaderRest}
use ink_db.Slotted.Words.{
  Apart, entry_at-eq, write_le_out, word-with_entry-Apart, word-with_entry_offset,
  word-with_entry_size, word-placed-Apart, free_end-placed, body-placed, kept-placed,
}

-- An entry at `base`, the new `free_start`, and the cell, on a page `m0` whose directory leaves room
-- at the entry `k`.
module _ {lim : ℕ} (m : RawPage) (k : ℕ) (cell : List ℕ) (s : IsSlotted lim m)
    (room : HasRoom m cell) (k_in : k ≤ entry_total m) (m0 : RawPage) (base : ℕ)
    (at_k : base ≡ entry_base k)
    (below : (o : ℕ) → header_size ≤ o → o + 2 ≤ base → read_le 2 m0 o ≡ read_le 2 m o)
    (above : (i d : ℕ)
      → k ≤ i
      → i < entry_total m
      → d ≤ 2
      → read_le 2 m0 (entry_base (suc i) + d) ≡ read_le 2 m (entry_base i + d))
    (rest : (j : ℕ) → free_end m ≤ j → m0 j ≡ m j)
    (head : (j : ℕ) → j < header_size → m0 j ≡ m j) where
  abbrev start : ℕ
  start = free_end m - length cell

  abbrev entered : RawPage
  entered =
      write_le 2 (with_entry m0 base start (length cell)) free_start_offset
        (as_u16 (free_start m + entry_size))

  abbrev added : RawPage
  added = placed entered (free_end m) cell

  word-added :
      (o : ℕ)
      → header_size ≤ o
      → o + 2 ≤ start
      → read_le 2 added o ≡ read_le 2 (with_entry m0 base start (length cell)) o
  word-added o h l =
      word-placed-Apart entered (free_end m) cell (omega arith) o (omega arith) (omega arith)
      ∙ read_le-write_le_apart 2 2 (with_entry m0 base start (length cell)) 12 _ o (omega arith)

  word-added-Apart :
      (o : ℕ)
      → header_size ≤ o
      → o + 2 ≤ start
      → Apart o 2 base 4
      → read_le 2 added o ≡ read_le 2 m0 o
  word-added-Apart o h l a =
      word-added o h l ∙ word-with_entry-Apart m0 base start (length cell) o a

  free_start-added : free_start added ≡ free_start m + entry_size
  unfolding free_start
  free_start-added =
      word-placed-Apart entered (free_end m) cell (omega arith) 12 (omega arith)
        (omega (arith, s.start))
      ∙ read_le-write_le 2 (with_entry m0 base start (length cell)) 12
          (as_u16 (free_start m + entry_size)) (omega arith)
      ∙ omega (arith, s.bound, s.limit)

  mid-added : entry_at added k ≡ record { offset = start; length = length cell }
  unfolding entry_at
  mid-added = λ t. record { offset = first t; length = second t }
    where
      first : read_le 2 added (entry_base k) ≡ start
      first = rw (← at_k) (
          word-added base (omega arith) (omega (arith, s.start, s.aligned))
          ∙ word-with_entry_offset m0 base start (length cell) (omega (arith, s.bound, s.limit)))

      second : read_le 2 added (entry_base k + 2) ≡ length cell
      second = rw (← at_k) (
          word-added (base + 2) (omega arith) (omega (arith, s.start, s.aligned))
          ∙ word-with_entry_size m0 base start (length cell) (omega (arith, s.bound, s.limit)))

  low-added : (i : ℕ) → i < k → entry_at added i ≡ entry_at m i
  low-added i h = entry_at-eq m added i i word
    where
      word : (d : ℕ) → d ≤ 2 → read_le 2 added (entry_base i + d) ≡ read_le 2 m (entry_base i + d)
      word d l =
          word-added-Apart (entry_base i + d) (omega arith) (omega (arith, s.start)) (omega arith)
          ∙ below (entry_base i + d) (omega arith) (omega arith)

  high-added : (i : ℕ) → k ≤ i → i < entry_total m → entry_at added (suc i) ≡ entry_at m i
  high-added i h l = entry_at-eq m added i (suc i) word
    where
      word :
          (d : ℕ)
          → d ≤ 2
          → read_le 2 added (entry_base (suc i) + d) ≡ read_le 2 m (entry_base i + d)
      word d q =
          word-added-Apart (entry_base (suc i) + d) (omega arith) (omega (arith, s.start))
            (omega arith)
          ∙ above i d h l q

  kept-added : (j : ℕ) → free_end m ≤ j → added j ≡ m j
  kept-added j h =
      kept-placed entered (free_end m) cell (omega arith) j (omega (arith, s.start)) h
      ∙ write_le_out 2 (with_entry m0 base start (length cell)) 12 _ j (omega (arith, s.start))
      ∙ write_le_out 2 (write_le 2 m0 base start) (base + 2) _ j (omega (arith, s.start, s.aligned))
      ∙ write_le_out 2 m0 base _ j (omega (arith, s.start, s.aligned))
      ∙ rest j h

  header-added : (j : ℕ) → j < header_size → HeaderRest j → added j ≡ m j
  header-added j h r =
      write_le_out 2 (write_bytes entered start cell) 14 _ j (omega arith)
      ∙ write_bytes_out entered start cell j (omega (arith, s.start))
      ∙ write_le_out 2 (with_entry m0 base start (length cell)) 12 _ j (omega arith)
      ∙ write_le_out 2 (write_le 2 m0 base start) (base + 2) _ j (omega arith)
      ∙ write_le_out 2 m0 base _ j (omega arith)
      ∙ head j h

  pub Extends-added : Extends m k cell added
  Extends-added = record {
    grown = free_start-added;
    lowered =
        free_end-placed entered (free_end m) cell (omega arith) (omega (arith, s.bound, s.limit));
    low = low-added;
    mid = mid-added;
    high = high-added;
    body = body-placed entered (free_end m) cell (omega arith) (omega (arith, s.start));
    kept = kept-added;
    header = header-added;
  }

module _ {lim : ℕ} (m : RawPage) (cell : List ℕ) (s : IsSlotted lim m) (room : HasRoom m cell) where
  pub Extends-append :
      Extends m
        (entry_total m)
        cell
        (placed (appended m (length cell) (free_end m - length cell)) (free_end m) cell)
  Extends-append =
      Extends-added m (entry_total m) cell s room (omega arith) m (free_start m)
        (omega (arith, s.start, s.aligned)) (λ o h l. refl) (λ i d h l q. absurd (omega arith))
        (λ j h. refl) (λ j h. refl)

  pub Extends-shift :
      (k : ℕ)
      → k < entry_total m
      → Extends m k cell
          (placed (shifted m k (length cell) (free_end m - length cell)) (free_end m) cell)
  Extends-shift k k_in =
      Extends-added m k cell s room (omega arith) (moved m k) (entry_base k) refl
        (λ o h l. read_le-move_bytes_apart 2 m (entry_base k) _ _ o (omega arith)) above
        (λ j h. move_bytes_out m (entry_base k) _ _ j (omega (arith, s.start, s.aligned)))
        (λ j h. move_bytes_out m (entry_base k) _ _ j (omega arith))
    where
      above :
          (i d : ℕ)
          → k ≤ i
          → i < entry_total m
          → d ≤ 2
          → read_le 2 (moved m k) (entry_base (suc i) + d) ≡ read_le 2 m (entry_base i + d)
      above i d h l q =
          let t : ℕ = (i - k) * 4 + d in
          let target : entry_base (suc i) + d ≡ entry_base k + entry_size + t = omega arith in
          let source : entry_base i + d ≡ entry_base k + t = omega arith in
          rw (target, source)
            (read_le-move_bytes 2 m (entry_base k) (entry_base k + entry_size)
              ((entry_total m - k) * entry_size) t (omega arith))
