-- ===== src/Slotted/Ref/Scan.antt =====
-- Reading all the cells of a page through `SlottedPageRef` (page/slotted_page.rs), as callers do: with
-- the iterator of the slot directory, and slot by slot.
use ink_db.Base.{
  ℕ, zero, suc, ◌+◌, ◌-◌, ◌<◌, ◌≡◌, refl, ap, ap₂, ◌∙◌, List, [], ◌∷◌, arith, tabulate, none, some,
}
use ink_db.Mem.{RawPage, page_size}
use ink_db.Outcome.{Profile, debug, release, ok, pure, crash, exhausted, ◌>>=◌}
use ink_db.Slotted.{Slotted, header_size}
use ink_db.Slotted.Header
use ink_db.Slotted.Cells
use ink_db.Slotted.Dir.{SlotDirIter, iter, next_entry, slot_count}
use ink_db.Slotted.Ref.{slot_dir_ref, cell_slice_from_id, cell_slice_from_entry}
use ink_db.Slotted.Ref.Laws.{slot_dir_ref-same, cell_slice_from_id-same, cell_slice_from_entry-same}
use ink_db.Slotted.Layout.{IsSlotted, entry_total, entry_at, cell_at, cells}
use ink_db.Slotted.Read.{
  walk, next_entry-some, next_entry-none, slot_dir_ref_lem, cell_slice_from_entry-release,
  cell_slice_from_entry-debug, cell_slice_from_id-answer, answer, cell_slice_from_id-at,
}

-- The debug build refuses a cell that ends with the page.
abbrev pub ReadsEntries : Profile → ℕ → Type 0
ReadsEntries debug lim = lim < page_size
ReadsEntries release lim = Unit

module _ (p : Profile) {lim : ℕ} (m : RawPage) (s : IsSlotted lim m) where
  pub ref_slot_dir_lem :
      slot_dir_ref p m
      ≡ ok (record { ptr = header_size; size = Header.free_start m - header_size }) m
  ref_slot_dir_lem = slot_dir_ref-same p m ∙ slot_dir_ref_lem p m s

  pub ref_answer_lem : (i : ℕ) → cell_slice_from_id p i m ≡ answer (cells m) i m
  ref_answer_lem i = cell_slice_from_id-same p m i ∙ cell_slice_from_id-answer p m s i

  pub ref_entry_lem :
      (i : ℕ)
      → i < entry_total m
      → ReadsEntries p lim
      → cell_slice_from_entry p (entry_at m i) m ≡ ok (cell_at m i) m
  ref_entry_lem i h r = cell_slice_from_entry-same p m (entry_at m i) ∙ both p r
    where
      both :
          (q : Profile)
          → ReadsEntries q lim
          → Cells.cell_slice_from_entry q (entry_at m i) m ≡ ok (cell_at m i) m
      both debug l = cell_slice_from_entry-debug debug m s i h (omega (arith, s.inside i h))
      both release l = cell_slice_from_entry-release release m s i h

module _ (p : Profile) where
  -- `for se in it { .. self.cell_slice_from_entry(se) .. }`
  scan : ℕ → SlotDirIter → Slotted (List (List ℕ))
  scan zero it = crash exhausted
  scan (suc fuel) it = do
    r ← next_entry it
    let rest = scan fuel r.1
    elim r.0 [
      | none ↦ pure []
      | some se ↦ do c ← cell_slice_from_entry p se; cs ← rest; pure (c ∷ cs)
    ]

  unfoldable pub scan_all : Slotted (List (List ℕ))
  unfolding scan
  scan_all = do d ← slot_dir_ref p; scan (suc (slot_count d)) (iter d)

  -- `for i in from..from + n { .. self.cell_slice_from_id(SlotID(i)) .. }`
  read_ids : ℕ → ℕ → Slotted (List (List ℕ))
  read_ids zero from = pure []
  read_ids (suc n) from = do
    c ← cell_slice_from_id p from
    cs ← read_ids n (from + 1)
    pure (c ∷ cs)

  unfoldable pub read_all : Slotted (List (List ℕ))
  unfolding read_ids
  read_all = do d ← slot_dir_ref p; read_ids (slot_count d) 0

module _ (p : Profile) {lim : ℕ} (m : RawPage) (s : IsSlotted lim m) where
  -- the cells from the slot `i` on
  abbrev from_slot : ℕ → ℕ → List (List ℕ)
  from_slot i zero = []
  from_slot i (suc k) = cell_at m i ∷ from_slot (i + 1) k

  scan_lem :
      (k fuel i : ℕ)
      → ReadsEntries p lim
      → i + k ≡ entry_total m
      → k < fuel
      → scan p fuel (walk p m s i) m ≡ ok (from_slot i k) m
  unfolding scan
  scan_lem k zero i r e h = absurd (omega arith)
  scan_lem zero (suc fuel) i r e h = ground (arith, next_entry-none p m s i)
  scan_lem (suc k) (suc fuel) i r e h = ground (
    arith,
    next_entry-some p m s i (omega arith),
    ref_entry_lem p m s i (omega arith),
    scan_lem k fuel (i + 1) r (omega arith) (omega arith),
  )

  read_ids_lem : (k i : ℕ) → i + k ≡ entry_total m → read_ids p k i m ≡ ok (from_slot i k) m
  unfolding read_ids
  read_ids_lem zero i e = refl
  read_ids_lem (suc k) i e = ground (
    arith,
    cell_slice_from_id-same p m i,
    cell_slice_from_id-at p m s i (omega arith),
    read_ids_lem k (i + 1) (omega arith),
  )

  from_slot-tabulate :
      (k i : ℕ) (f : ℕ → List ℕ)
      → ((j : ℕ) → cell_at m (i + j) ≡ f j)
      → from_slot i k ≡ tabulate k f
  from_slot-tabulate zero i f h = refl
  from_slot-tabulate (suc k) i f h = ap₂ ◌∷◌ (ap (cell_at m) (omega arith) ∙ h 0) (
      from_slot-tabulate k (i + 1) (λ j. f (suc j)) (λ j. ap (cell_at m) (omega arith) ∙ h (suc j)))

  slots :
      slot_count (record { ptr = header_size; size = Header.free_start m - header_size })
      ≡ entry_total m
  unfolding slot_count
  slots = ground arith

  -- On a well-formed page the iterator of the slot directory with `cell_slice_from_entry` gives all the
  -- cells in order, in a debug build only if none of them can end with the page, and so does
  -- `cell_slice_from_id` at one slot after the other.
  pub scan_all-read_all :
      ReadsEntries p lim → (scan_all p m ≡ ok (cells m) m) × (read_all p m ≡ ok (cells m) m)
  unfolding scan_all read_all iter
  scan_all-read_all r = (
    ground (
      arith,
      ref_slot_dir_lem p m s,
      slots,
      scan_lem (entry_total m) (suc (entry_total m)) 0 r (omega arith) (omega arith),
      from_slot-tabulate (entry_total m) 0 (cell_at m) (λ j. ap (cell_at m) (omega arith)),
    ),
    ground (
      arith,
      ref_slot_dir_lem p m s,
      slots,
      read_ids_lem (entry_total m) 0 (omega arith),
      from_slot-tabulate (entry_total m) 0 (cell_at m) (λ j. ap (cell_at m) (omega arith)),
    ),
  )
