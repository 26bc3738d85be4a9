-- ===== src/Slotted/Corrupt.antt =====
-- Pages whose directory and cells may hold anything (page/slotted_page.rs): only the header is as the
-- methods keep it.
use ink_db.Base.{
  ℕ, ◌+◌, ◌-◌, ◌≤◌, ◌<◌, ◌≡◌, ◌≢◌, ◌↔◌, ◌⊎◌, Bool, true, false, List, [], ◌∷◌, All, arith, leb, ltb,
  ◌==◌, if◌then◌else◌, length, dec_le, dec_lt, ℕ_discrete,
}
use ink_db.Mem.{RawPage, page_size}
use ink_db.Outcome.{Profile, ok, err, fault, undefined}
use ink_db.Slotted.{
  SlotEntry, PageError, empty_slot_dir, slot_id_out_of_bounds, corrupt_cell, header_size,
  entry_size,
}
use ink_db.Slotted.Header.{free_start, free_end}
use ink_db.Slotted.Dir.{slot_dir_ref, slot_count}
use ink_db.Slotted.Cells.{cell_slice_from_id}
use ink_db.Slotted.Layout.{entry_total, entry_base, entry_at, cell_at}
use ink_db.Slotted.Effect.{Grown, free_start-appended, free_start-shifted}
use ink_db.Slotted.Place.{
  HasRoom, placed, add_cell_append_effect, add_cell_at_effect, add_cell_at_last, add_cell_at_far,
  add_cell_append_full, add_cell_at_full,
}
use ink_db.Slotted.Words.{word-placed-Apart, free_end-placed}
use ink_db.Slotted.Refine.{
  Call, append, put, get, Reply, refused, broken, answered, perform, perform_all,
}

-- The directory ends before the free space, which ends with the page at the latest.
pub record HasHeader (m : RawPage) : Type 0 where
  pub start : header_size ≤ free_start m
  pub order : free_start m ≤ free_end m
  pub bound : free_end m ≤ page_size

-- A reply to a call that ended well or gave an error, and the header behind it.
pub record Ends (out : Reply × RawPage) : Type 0 where
  pub unbroken : out.0 ≢ broken
  pub header : HasHeader out.1

placed-HasHeader :
    (m m1 : RawPage) (cell : List ℕ)
    → HasHeader m
    → HasRoom m cell
    → Grown m m1
    → HasHeader (placed m1 (free_end m) cell)
unfolding free_start
placed-HasHeader m m1 cell h room g =
    let fs : free_start (placed m1 (free_end m) cell) ≡ free_start m1 =
      word-placed-Apart m1 (free_end m) cell (omega arith) 12 (omega arith)
        (omega (arith, h.start)) in
    let fe : free_end (placed m1 (free_end m) cell) ≡ free_end m - length cell =
      free_end-placed m1 (free_end m) cell (omega arith) h.bound in
    record {
      start = omega (arith, fs, g, h.start);
      order = omega (arith, fs, fe, g);
      bound = omega (arith, fe, h.bound);
    }

module _ (p : Profile) (m : RawPage) where
  -- The slot is asked for, then its entry, whose cell may pass the page's end.
  slice_lem :
      (i : ℕ)
      → header_size ≤ free_start m
      → free_start m ≤ page_size
      → cell_slice_from_id p i m ≡ (
          if entry_total m == 0
          then err empty_slot_dir m
          else if leb (entry_total m) i
          then err slot_id_out_of_bounds m
          else if ltb page_size ((entry_at m i).offset + (entry_at m i).length)
          then err corrupt_cell m
          else ok (cell_at m i) m)
  unfolding cell_slice_from_id slot_dir_ref slot_count cell_at entry_at
  slice_lem i a b =
      let e : SlotEntry = entry_at m i in
      let back : e.offset + e.length - e.offset ≡ e.length = omega arith in ground arith

  module _ (h : HasHeader m) where
    kept : {e : PageError} → Ends (refused e, m)
    kept = record { unbroken = λ b. cc; header = h }

    append-Ends : (cell : List ℕ) → Ends (perform p m (append cell))
    append-Ends cell = elim (dec_le (free_start m + entry_size + length cell) (free_end m)) [
      | yes room ↦ rw (add_cell_append_effect p m cell h.start h.bound room) (record {
        unbroken = λ b. cc;
        header = placed-HasHeader m _ cell h room (
            free_start-appended m (length cell) (free_end m - length cell)
              (omega (arith, h.bound)));
      })
      | no tight ↦ rw (add_cell_append_full p m cell h.order h.bound (omega arith)) kept
    ]

    put-Ends : (k : ℕ) (cell : List ℕ) → Ends (perform p m (put k cell))
    put-Ends k cell = elim (dec_le (free_start m + entry_size + length cell) (free_end m)) [
      | no tight ↦ rw (add_cell_at_full p m k cell h.order h.bound (omega arith)) kept
      | yes room ↦ elim (dec_lt k (entry_total m)) [
        | yes l ↦ rw (add_cell_at_effect p m cell h.start h.bound room k l) (record {
          unbroken = λ b. cc;
          header = placed-HasHeader m _ cell h room (
              free_start-shifted m k (length cell) (free_end m - length cell)
                (omega (arith, h.bound)));
        })
        | no g ↦ elim (ℕ_discrete k (entry_total m)) [
          | yes last ↦
              rw (last, add_cell_at_last p m cell h.start h.bound room)
                (record {
                  unbroken = λ b. cc;
                  header = placed-HasHeader m _ cell h room (
                      free_start-appended m (length cell) (free_end m - length cell)
                        (omega (arith, h.bound)));
                })
          | no far ↦ rw (add_cell_at_far p m cell h.start h.bound room k (omega arith)) kept
        ]
      ]
    ]

    tests-Ends :
        (a b c : Bool) (bytes : List ℕ)
        → Ends (
            answered m (
              if a
              then err empty_slot_dir m
              else if b
              then err slot_id_out_of_bounds m
              else if c
              then err corrupt_cell m
              else ok bytes m))
    tests-Ends true b c bytes = kept
    tests-Ends false true c bytes = kept
    tests-Ends false false true bytes = kept
    tests-Ends false false false bytes = record { unbroken = λ b. cc; header = h }

    get-Ends : (i : ℕ) → Ends (perform p m (get i))
    get-Ends i = rw (slice_lem i h.start (omega (arith, h.order, h.bound))) (
        tests-Ends (entry_total m == 0) (leb (entry_total m) i)
          (ltb page_size ((entry_at m i).offset + (entry_at m i).length)) (cell_at m i))

    perform-Ends : (c : Call) → Ends (perform p m c)
    perform-Ends (append cell) = append-Ends cell
    perform-Ends (put k cell) = put-Ends k cell
    perform-Ends (get i) = get-Ends i

-- On any bytes whose header has the directory end before the free space and the free space in the page,
-- whatever the directory and the cells hold, any sequence of calls that add cells and read them by slot
-- gives results and errors only, in either build: none panics or touches memory outside the page; and the
-- header keeps that order.
pub perform_all-Ends :
    (p : Profile) (calls : List Call) (m : RawPage)
    → HasHeader m
    → All (λ r. r ≢ broken) (perform_all p calls m).0 × HasHeader (perform_all p calls m).1
perform_all-Ends p [] m h = (tt, h)
perform_all-Ends p (c ∷ calls) m h =
    let one = perform-Ends p m h c in
    let rest = perform_all-Ends p calls (perform p m c).1 one.header in
    ((one.unbroken, rest.0), rest.1)

module _ (p : Profile) (m : RawPage) (i : ℕ) where
  past_page :
      header_size ≤ free_start m
      → i < entry_total m
      → page_size < entry_base i + entry_size
      → cell_slice_from_id p i m ≡ fault undefined
  unfolding cell_slice_from_id slot_dir_ref slot_count
  past_page a b c = ground arith

  defined :
      (free_start m < header_size) ⊎ ((entry_total m ≤ i) ⊎ (entry_base i + entry_size ≤ page_size))
      → cell_slice_from_id p i m ≢ fault undefined
  unfolding cell_slice_from_id slot_dir_ref slot_count
  defined h e = ground arith

  -- On any bytes, in either build, `cell_slice_from_id` reads outside the page exactly if `free_start` is
  -- behind the header, the slot is one of those up to it, and the slot's entry passes the page's end.
  pub cell_slice_from_id-undefined : (cell_slice_from_id p i m ≡ fault undefined) ↔ (
      (header_size ≤ free_start m) × (i < entry_total m) × (page_size < entry_base i + entry_size))
  cell_slice_from_id-undefined = (
    λ e. (
      elim (dec_le header_size (free_start m)) [
        | yes y ↦ y
        | no n ↦ absurd (defined (omega arith) e)
      ],
      elim (dec_lt i (entry_total m)) [ yes y ↦ y | no n ↦ absurd (defined (omega arith) e) ],
      elim (dec_lt page_size (entry_base i + entry_size)) [
        | yes y ↦ y
        | no n ↦ absurd (defined (omega arith) e)
      ],
    ),
    λ h. past_page h.0 h.1 h.2,
  )
