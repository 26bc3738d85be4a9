-- ===== src/Slotted/Extend.antt =====
-- A page that one entry and one cell were added to, at any index of the directory: what its
-- header, its entries, its cells and the rest of its bytes are.
use ink_db.Base.{
  ℕ, zero, suc, ◌+◌, ◌-◌, ◌≤◌, ◌<◌, ◌≡◌, ◌∙◌, ap, ◌⊎◌, List, arith, length, dec_lt, dec_le,
  tabulate-insert_at, insert_at,
}
use ink_db.Mem.{RawPage, read_bytes}
use ink_db.Mem.Laws.{read_bytes-cong}
use ink_db.Slotted.{SlotEntry, header_size, entry_size}
use ink_db.Slotted.Header.{free_start, free_end}
use ink_db.Slotted.Layout.{entry_total, entry_at, cell_at, cells, IsSlotted}
use ink_db.Slotted.Place.{HasRoom}

-- the header but for `free_start` and `free_end`
abbrev pub HeaderRest : ℕ → Type 0
HeaderRest j = (j < 12) ⊎ (16 ≤ j)

-- `m'` is `m` with `cell` added as the entry `k`.
pub record Extends (m : RawPage) (k : ℕ) (cell : List ℕ) (m' : RawPage) : Type 0 where
  pub grown : free_start m' ≡ free_start m + entry_size
  pub lowered : free_end m' ≡ free_end m - length cell
  pub low : (i : ℕ) → i < k → entry_at m' i ≡ entry_at m i
  pub mid : entry_at m' k ≡ record { offset = free_end m - length cell; length = length cell }
  pub high : (i : ℕ) → k ≤ i → i < entry_total m → entry_at m' (suc i) ≡ entry_at m i
  pub body : read_bytes m' (free_end m - length cell) (length cell) ≡ cell
  pub kept : (j : ℕ) → free_end m ≤ j → m' j ≡ m j
  pub header : (j : ℕ) → j < header_size → HeaderRest j → m' j ≡ m j

module _ (lim : ℕ) (m : RawPage) (k : ℕ) (cell : List ℕ) (m' : RawPage) (s : IsSlotted lim m)
    (room : HasRoom m cell) (k_in : k ≤ entry_total m) (x : Extends m k cell m') where
  pub entry_total-Extends : entry_total m' ≡ suc (entry_total m)
  entry_total-Extends = omega (arith, s.start, s.aligned, x.grown)

  -- An entry that is the same finds the same bytes.
  same_cell :
      (i i' : ℕ) → i < entry_total m → entry_at m' i' ≡ entry_at m i → cell_at m' i' ≡ cell_at m i
  unfolding cell_at
  same_cell i i' h e =
      ap (λ (t : SlotEntry). read_bytes m' t.offset t.length) e
      ∙ read_bytes-cong m' m (entry_at m i).offset (entry_at m i).offset (entry_at m i).length
          (λ j l. x.kept ((entry_at m i).offset + j) (omega (arith, s.inside i h)))

  -- The cells are those from before, with the new one at its index.
  pub cells-Extends : cells m' ≡ insert_at k cell (cells m)
  unfolding cell_at
  cells-Extends = rw entry_total-Extends (
      tabulate-insert_at (entry_total m) k cell (cell_at m) (cell_at m') k_in
        (λ i h. same_cell i i (omega arith) (x.low i h))
        (ap (λ (t : SlotEntry). read_bytes m' t.offset t.length) x.mid ∙ x.body)
        (λ i h l. same_cell i (suc i) l (x.high i h l)))

  abbrev Inside : SlotEntry → Type 0
  Inside e = (free_end m' ≤ e.offset) × (e.offset + e.length ≤ lim)

  Inside-old : (i : ℕ) → i < entry_total m → Inside (entry_at m i)
  Inside-old i h = omega (arith, s.inside i h, x.lowered)

  Inside-at : Inside (entry_at m' k)
  Inside-at = rw x.mid (omega (arith, s.order, s.bound, x.lowered))

  Inside-high : (i : ℕ) → k ≤ i → i < entry_total m' → Inside (entry_at m' i)
  Inside-high zero l h = let e : 0 ≡ k = omega arith in rw e Inside-at
  Inside-high (suc j) l h = elim (dec_le k j) [
    | yes g ↦
        let old : j < entry_total m = omega (arith, entry_total-Extends) in
        rw (x.high j g old) (Inside-old j old)
    | no g ↦ let e : suc j ≡ k = omega arith in rw e Inside-at
  ]

  Inside-new : (i : ℕ) → i < entry_total m' → Inside (entry_at m' i)
  Inside-new i h = elim (dec_lt i k) [
    | yes l ↦ rw (x.low i l) (Inside-old i (omega arith))
    | no g ↦ Inside-high i (omega arith) h
  ]

  pub IsSlotted-Extends : IsSlotted lim m'
  IsSlotted-Extends = record {
    start = omega (arith, s.start, x.grown);
    aligned = omega (arith, s.aligned, x.grown);
    order = omega (arith, x.grown, x.lowered);
    bound = omega (arith, x.lowered, s.bound);
    limit = s.limit;
    inside = Inside-new;
  }
