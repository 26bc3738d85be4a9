-- ===== src/Index/Corrupt.antt =====
-- A search on an index page with a cell whose key length passes the cell (page/internal_page.rs).
use ink_db.Base.{ℕ, zero, suc, ◌+◌, ◌≤◌, ◌<◌, ◌≡◌, List, length, ◌∷◌, tabulate, arith, Option}
use ink_db.Mem.{RawPage}
use ink_db.Outcome.{Profile, debug, release, fault, panicked, undefined, Fault, Outcome}
use ink_db.Slotted.Header.{get_special_offset}
use ink_db.Slotted.Dir.{iter}
use ink_db.Slotted.Ref.Scan.{ref_slot_dir_lem, ref_entry_lem, ReadsEntries}
use ink_db.Slotted.Read.{next_entry-some, walk}
use ink_db.Slotted.Layout.{IsSlotted, entry_total, entry_at, cell_at, cells}
use ink_db.Index.{IndexPageError}
use ink_db.Index.Cell.{from, get_key, key_length}
use ink_db.Index.Find.{examine, search_entries, skip_entries, search_from, find_child_ptr}
use ink_db.Index.Layout.{sibling, special_start, ref_has_right_sibling_lem}

-- How a build takes such a cell.
abbrev pub stopped : Profile → Fault
stopped debug = panicked
stopped release = undefined

get_key-past :
    (p : Profile) (c : List ℕ) (m : RawPage)
    → length c < 10 + key_length c
    → get_key p c m ≡ fault (stopped p)
unfolding get_key
get_key-past debug c m h = ground arith
get_key-past release c m h = ground arith

first_of :
    (n : ℕ) (f : ℕ → List ℕ) (c : List ℕ) (cs : List (List ℕ))
    → tabulate n f ≡ c ∷ cs
    → (0 < n) × (f 0 ≡ c)
first_of zero f c cs e = absurd cc
first_of (suc n) f c cs e = (omega arith, cc)

module _ (p : Profile) (key : List ℕ) {m : RawPage} (s : IsSlotted special_start m)
    (some_cell : 0 < entry_total m) (long : 10 ≤ length (cell_at m 0))
    (past : length (cell_at m 0) < 10 + key_length (cell_at m 0)) where
  reads : (q : Profile) → ReadsEntries q special_start
  reads debug = omega arith
  reads release = tt

  examine-past :
      (rest : RawPage → Outcome IndexPageError (Option ℕ))
      → examine p key (entry_at m 0) rest m ≡ fault (stopped p)
  unfolding examine from
  examine-past rest =
      ground (arith, ref_entry_lem p m s 0 some_cell (reads p), get_key-past p (cell_at m 0) m past)

  search_from-past : search_from p key 0 m ≡ fault (stopped p)
  unfolding search_from skip_entries search_entries iter
  search_from-past = ground (
    arith,
    ref_slot_dir_lem p m s,
    next_entry-some p m s 0 some_cell,
    examine-past (search_entries p key (entry_total m) (walk p m s 1)),
  )

module _ (p : Profile) (key : List ℕ) {m : RawPage} where
  -- A search on a page without a right sibling, well-formed but for the key length of its first cell, which
  -- passes the cell: a debug build panics, a release build reads past the cell, whatever the key.
  pub find_child_ptr-past :
      (c : List ℕ) (cs : List (List ℕ))
      → IsSlotted special_start m
      → get_special_offset m ≡ special_start
      → sibling m ≡ 0
      → cells m ≡ c ∷ cs
      → 10 ≤ length c
      → length c < 10 + key_length c
      → find_child_ptr p key m ≡ fault (stopped p)
  unfolding find_child_ptr
  find_child_ptr-past c cs s e n is long past =
      let (k, same) = first_of (entry_total m) (cell_at m) c cs is in
      ground (
        arith,
        ref_has_right_sibling_lem p m e,
        search_from-past p key s k (rw same long) (rw same past),
      )
