-- ===== src/Slotted/Read.antt =====
-- Reading a well-formed page: a cell by its index and by its entry, and the walk of the directory.
use ink_db.Base.{
  ℕ, zero, suc, ◌+◌, ◌-◌, ◌≤◌, ◌<◌, ◌≡◌, refl, sym, ◌∙◌, ap, List, [], ◌∷◌, arith, length, none,
  some, get_elem?, tabulate, get_elem?-tabulate, length-tabulate, dec_lt, ℕ_discrete,
}
use ink_db.Mem.{RawPage, page_size}
use ink_db.Outcome.{Profile, debug, release, Outcome, ok, err}
use ink_db.Slotted.{SlotEntry, PageError, empty_slot_dir, slot_id_out_of_bounds, header_size}
use ink_db.Slotted.Header.{free_start}
use ink_db.Slotted.Dir.{SlotDirIter, slot_dir_ref, slot_count, next_entry}
use ink_db.Slotted.Cells.{cell_slice_from_id, cell_slice_from_entry}
use ink_db.Slotted.Layout.{entry_total, entry_at, cell_at, cells, IsSlotted}

-- What a list of cells answers to a request by index.
unfoldable pub answer : List (List ℕ) → ℕ → RawPage → Outcome PageError (List ℕ)
answer [] i m = err empty_slot_dir m
answer (c ∷ cs) i m = elim (get_elem? (c ∷ cs) i) [
  | none ↦ err slot_id_out_of_bounds m
  | some x ↦ ok x m
]

get_elem?-none {ℓ} : {A : Type ℓ} (xs : List A) (i : ℕ) → length xs ≤ i → get_elem? xs i ≡ none
get_elem?-none [] i h = refl
get_elem?-none (x ∷ xs) zero h = absurd (omega arith)
get_elem?-none (x ∷ xs) (suc i) h = get_elem?-none xs i (omega arith)

answer-tabulate :
    (n : ℕ) (f : ℕ → List ℕ) (i : ℕ) (m : RawPage) → i < n → answer (tabulate n f) i m ≡ ok (f i) m
unfolding answer
answer-tabulate zero f i m h = elim h [ ]
answer-tabulate (suc n) f i m h = ground (arith, get_elem?-tabulate (suc n) f i h)

answer-none :
    (n : ℕ) (f : ℕ → List ℕ) (i : ℕ) (m : RawPage)
    → 0 < n
    → n ≤ i
    → answer (tabulate n f) i m ≡ err slot_id_out_of_bounds m
unfolding answer
answer-none zero f i m h l = elim h [ ]
answer-none (suc n) f i m h l =
    ground (arith, get_elem?-none (tabulate (suc n) f) i (omega (arith, length-tabulate (suc n) f)))

module _ (p : Profile) {lim : ℕ} (m : RawPage) (s : IsSlotted lim m) where
  pub slot_dir_ref_lem :
      slot_dir_ref p m ≡ ok (record { ptr = header_size; size = free_start m - header_size }) m
  unfolding slot_dir_ref
  slot_dir_ref_lem = ground (arith, s.start)

  pub cell_slice_from_id-at :
      (i : ℕ) → i < entry_total m → cell_slice_from_id p i m ≡ ok (cell_at m i) m
  unfolding cell_slice_from_id slot_count cell_at entry_at
  cell_slice_from_id-at i h =
      let e : SlotEntry = entry_at m i in
      let back : e.offset + e.length - e.offset ≡ e.length = omega arith in
      ground (arith, slot_dir_ref_lem, s.inside i h, s.start, s.order, s.bound, s.limit)

  slice-empty : (i : ℕ) → entry_total m ≡ 0 → cell_slice_from_id p i m ≡ err empty_slot_dir m
  unfolding cell_slice_from_id slot_count
  slice-empty i h = ground (arith, slot_dir_ref_lem, s.start)

  slice-out :
      (i : ℕ)
      → 0 < entry_total m
      → entry_total m ≤ i
      → cell_slice_from_id p i m ≡ err slot_id_out_of_bounds m
  unfolding cell_slice_from_id slot_count
  slice-out i h l = ground (arith, slot_dir_ref_lem, s.start)

  -- On a well-formed page `cell_slice_from_id` answers as the list of the page's cells does, on each of its branches.
  pub cell_slice_from_id-answer : (i : ℕ) → cell_slice_from_id p i m ≡ answer (cells m) i m
  unfolding answer
  cell_slice_from_id-answer i = elim (dec_lt i (entry_total m)) [
    | yes h ↦ cell_slice_from_id-at i h ∙ sym (answer-tabulate (entry_total m) (cell_at m) i m h)
    | no h ↦ elim (ℕ_discrete (entry_total m) 0) [
      | yes e ↦ slice-empty i e ∙ sym (answer-empty e)
      | no e ↦
          slice-out i (omega arith) (omega arith)
          ∙ sym (answer-none (entry_total m) (cell_at m) i m (omega arith) (omega arith))
    ]
  ]
    where
      answer-empty : entry_total m ≡ 0 → answer (cells m) i m ≡ err empty_slot_dir m
      answer-empty e = ap (λ n. answer (tabulate n (cell_at m)) i m) e

  -- In a release build a well-formed entry gives its cell.
  pub cell_slice_from_entry-release :
      (i : ℕ)
      → i < entry_total m
      → cell_slice_from_entry release (entry_at m i) m ≡ ok (cell_at m i) m
  unfolding cell_slice_from_entry cell_at entry_at
  cell_slice_from_entry-release i h =
      let e : SlotEntry = entry_at m i in
      let back : e.offset + e.length - e.offset ≡ e.length = omega arith in
      ground (arith, s.inside i h, s.limit)

  -- In a debug build it does so if the cell ends before the last byte of the page.
  pub cell_slice_from_entry-debug :
      (i : ℕ)
      → i < entry_total m
      → (entry_at m i).offset + (entry_at m i).length < page_size
      → cell_slice_from_entry debug (entry_at m i) m ≡ ok (cell_at m i) m
  unfolding cell_slice_from_entry cell_at entry_at
  cell_slice_from_entry-debug i h l =
      let e : SlotEntry = entry_at m i in
      let back : e.offset + e.length - e.offset ≡ e.length = omega arith in
      ground (arith, s.inside i h, s.limit)

  abbrev pub walk : ℕ → SlotDirIter
  walk i = record { ptr = header_size; size = free_start m - header_size; pos = i }

  -- The iterator gives the entry at its position and moves on, up to the last one.
  pub next_entry-some :
      (i : ℕ) → i < entry_total m → next_entry (walk i) m ≡ ok (some (entry_at m i), walk (i + 1)) m
  unfolding next_entry entry_at
  next_entry-some i h = ground (arith, s.order, s.bound, s.limit, s.start)

  pub next_entry-none : (i : ℕ) → entry_total m ≤ i → next_entry (walk i) m ≡ ok (none, walk i) m
  unfolding next_entry
  next_entry-none i h = ground arith
