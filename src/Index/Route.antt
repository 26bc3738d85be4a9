-- ===== src/Index/Route.antt =====
-- The search for a child against a description of it on the list of the page's cells.
use native.Mathlib.Nat.{add-zero}
use ink_db.Base.{
  ℕ, zero, suc, ◌+◌, ◌<◌, ◌≡◌, refl, ap, ap₂, sym, ◌∙◌, List, [], ◌∷◌, arith, Option, none, some,
  if◌then◌else◌, tabulate, tabulate-cong,
}
use ink_db.Mem.{RawPage}
use ink_db.Outcome.{Profile, debug, release, Outcome, ok, err}
use ink_db.Page.{PageId}
use ink_db.Slotted.{empty_slot_dir}
use ink_db.Slotted.Ref.{cell_slice_from_id, cell_slice_from_entry}
use ink_db.Slotted.Dir.{iter}
use ink_db.Slotted.Layout.{entry_total, entry_at, cell_at, cells}
use ink_db.Slotted.Read.{walk, next_entry-some, next_entry-none, answer}
use ink_db.Slotted.Ref.Scan.{ReadsEntries, ref_slot_dir_lem, ref_answer_lem, ref_entry_lem}
use ink_db.Index.{IndexPageError, page_error}
use ink_db.Index.Cell.{from, get_value_ptr}
use ink_db.Index.Find.{lt_bytes, examine, search_entries, skip_entries, search_from, find_child_ptr}
use ink_db.Index.Cell.Laws.{key_of, get_key_lem}
use ink_db.Index.Layout.{
  IsIndexPage, sibling, special_start, ref_has_right_sibling_lem, get_right_sibling_lem,
}

-- The child of the first cell whose key is above `key`.
unfoldable pub first_above : List ℕ → List (List ℕ) → Option PageId
first_above key [] = none
first_above key (c ∷ cs) =
    if lt_bytes key (key_of c) then some (get_value_ptr c) else first_above key cs

-- With a right sibling the first cell holds the high key: a larger key goes to the sibling, any other
-- to the cells behind it. With none, all cells are searched.
unfoldable pub route :
    List ℕ → PageId → List (List ℕ) → RawPage → Outcome IndexPageError (Option PageId)
route key zero cs m = ok (first_above key cs) m
route key (suc s) [] m = err (page_error empty_slot_dir) m
route key (suc s) (c ∷ cs) m =
    ok (if lt_bytes (key_of c) key then some (suc s) else first_above key cs) m

module _ (p : Profile) (key : List ℕ) {m : RawPage} (x : IsIndexPage m) where
  open x use {slotted}

  entry-cell :
      (i : ℕ) → i < entry_total m → cell_slice_from_entry p (entry_at m i) m ≡ ok (cell_at m i) m
  entry-cell i h = ref_entry_lem p m slotted i h (reads p)
    where
      reads : (q : Profile) → ReadsEntries q special_start
      reads debug = omega arith
      reads release = tt

  examine_lem :
      (i : ℕ) (rest : RawPage → Outcome IndexPageError (Option PageId))
      → i < entry_total m
      → examine p key (entry_at m i) rest m ≡ (
          if lt_bytes key (key_of (cell_at m i))
          then ok (some (get_value_ptr (cell_at m i))) m
          else rest m)
  unfolding examine from
  examine_lem i rest h = ground (arith, entry-cell i h, get_key_lem p (cell_at m i) m, x.parsed i h)

  -- the `k` cells from the entry `i` on
  abbrev ahead : ℕ → ℕ → List (List ℕ)
  ahead i k = tabulate k (λ j. cell_at m (i + j))

  ahead-suc : (i k : ℕ) → ahead i (suc k) ≡ cell_at m i ∷ ahead (i + 1) k
  ahead-suc i k = ap₂ ◌∷◌ (ap (cell_at m) (add-zero i)) (
      tabulate-cong k (λ j. cell_at m (i + suc j)) (λ j. cell_at m (i + 1 + j))
        (λ j h. ap (cell_at m) (omega arith)))

  -- The loop from the entry `i` on, with `k` entries left.
  search_entries_lem :
      (k fuel i : ℕ)
      → i + k ≡ entry_total m
      → k < fuel
      → search_entries p key fuel (walk p m slotted i) m ≡ ok (first_above key (ahead i k)) m
  unfolding search_entries first_above
  search_entries_lem k zero i e h = absurd (omega arith)
  search_entries_lem zero (suc fuel) i e h = ground (arith, next_entry-none p m slotted i)
  search_entries_lem (suc k) (suc fuel) i e h = ground (
    arith,
    next_entry-some p m slotted i (omega arith),
    examine_lem i (search_entries p key fuel (walk p m slotted (i + 1))) (omega arith),
    search_entries_lem k fuel (i + 1) (omega arith) (omega arith),
    ahead-suc i k,
  )

  ahead_all : ahead 0 (entry_total m) ≡ cells m
  ahead_all =
      tabulate-cong (entry_total m) (λ j. cell_at m (0 + j)) (cell_at m)
        (λ j h. ap (cell_at m) (omega arith))

  search_from_zero : search_from p key 0 m ≡ ok (first_above key (cells m)) m
  unfolding search_from skip_entries iter
  search_from_zero = ground (
    arith,
    ref_slot_dir_lem p m slotted,
    search_entries_lem (entry_total m) (suc (entry_total m)) 0 (omega arith) (omega arith),
    ahead_all,
  )

  search_from_one :
      (k : ℕ) → entry_total m ≡ suc k → search_from p key 1 m ≡ ok (first_above key (ahead 1 k)) m
  unfolding search_from skip_entries iter
  search_from_one k e = ground (
    arith,
    ref_slot_dir_lem p m slotted,
    next_entry-some p m slotted 0 (omega arith),
    search_entries_lem k (suc (entry_total m)) 1 (omega arith) (omega arith),
  )

  cells-suc : (k : ℕ) → entry_total m ≡ suc k → cells m ≡ cell_at m 0 ∷ ahead 1 k
  cells-suc k e = sym ahead_all ∙ ap (ahead 0) e ∙ ahead-suc 0 k

  first_cell : (k : ℕ) → entry_total m ≡ suc k → cell_slice_from_id p 0 m ≡ ok (cell_at m 0) m
  unfolding answer
  first_cell k e = ref_answer_lem p m slotted 0 ∙ ap (λ cs. answer cs 0 m) (cells-suc k e)

  no_cell : entry_total m ≡ 0 → cell_slice_from_id p 0 m ≡ err empty_slot_dir m
  unfolding answer
  no_cell e = ref_answer_lem p m slotted 0 ∙ ap (λ n. answer (tabulate n (cell_at m)) 0 m) e

  find-alone : sibling m ≡ 0 → find_child_ptr p key m ≡ ok (first_above key (cells m)) m
  unfolding find_child_ptr
  find-alone e = ground (arith, ref_has_right_sibling_lem p m x.special, search_from_zero)

  find-empty :
      (s : ℕ)
      → sibling m ≡ suc s
      → entry_total m ≡ 0
      → find_child_ptr p key m ≡ err (page_error empty_slot_dir) m
  unfolding find_child_ptr
  find-empty s e z = ground (arith, ref_has_right_sibling_lem p m x.special, no_cell z)

  find-high :
      (s k : ℕ)
      → sibling m ≡ suc s
      → entry_total m ≡ suc k
      → find_child_ptr p key m
        ≡ ok
            (if lt_bytes (key_of (cell_at m 0)) key
              then some (suc s)
              else first_above key (ahead 1 k))
            m
  unfolding find_child_ptr from
  find-high s k e t = ground (
    arith,
    ref_has_right_sibling_lem p m x.special,
    get_right_sibling_lem p m x.special,
    first_cell k t,
    get_key_lem p (cell_at m 0) m (x.parsed 0 (omega arith)),
    x.parsed 0 (omega arith),
    search_from_one k t,
  )

  -- On a well-formed index page, in either build, `find_child_ptr` routes the key as `route` does
  -- from the page's sibling and the list of its cells, and leaves the page as it is.
  pub find_child_ptr-route : find_child_ptr p key m ≡ route key (sibling m) (cells m) m
  unfolding route
  find_child_ptr-route = go (sibling m) (entry_total m) refl refl
    where
      go :
          (s n : ℕ)
          → sibling m ≡ s
          → entry_total m ≡ n
          → find_child_ptr p key m ≡ route key (sibling m) (cells m) m
      go zero n e t = find-alone e ∙ sym (ap (λ s. route key s (cells m) m) e)
      go (suc s) zero e t =
          find-empty s e t ∙ sym (ap₂ (λ u n. route key u (tabulate n (cell_at m)) m) e t)
      go (suc s) (suc k) e t =
          find-high s k e t ∙ sym (ap₂ (λ u cs. route key u cs m) e (cells-suc k t))
