-- ===== src/Slotted/Refine.antt =====
-- A slotted page as its callers see it (page/slotted_page.rs): a list of cells with a budget of free
-- bytes, and the page's methods as steps on it.
use ink_db.Base.{
  ℕ, ◌+◌, ◌-◌, ◌≤◌, ◌<◌, ◌≡◌, refl, ap, ap₂, Bool, true, false, leb, List, [], ◌∷◌, ◌++◌, arith,
  length, insert_at, dec_le, le→leb, lt→leb_false, ◌∙◌, get_elem?, none, some,
}
use ink_db.Mem.{RawPage}
use ink_db.Outcome.{Profile, Outcome, ok, err, fault}
use ink_db.Slotted.{
  PageError, no_contigious_space, slot_index_not_in_range, empty_slot_dir, slot_id_out_of_bounds,
  entry_size, header_size,
}
use ink_db.Slotted.Header.{free_start, free_end}
use ink_db.Slotted.Cells.{
  add_cell_append_slot_entry, add_cell_at_slot_entry_index, cell_slice_from_id,
}
use ink_db.Slotted.Layout.{cells, IsSlotted}
use ink_db.Slotted.Extend.{HeaderRest}
use ink_db.Slotted.Insert.{Adds, append-Adds, insert-Adds, add_cell_full, add_cell_far}
use ink_db.Slotted.Read.{answer, cell_slice_from_id-answer}

pub data Call : Type 0 where
  append : List ℕ → Call
  put : ℕ → List ℕ → Call
  get : ℕ → Call

-- What a call shows its caller.
pub data Reply : Type 0 where
  done : Reply
  found : List ℕ → Reply
  refused : PageError → Reply
  broken : Reply

pub record Store : Type 0 where
  pub contents : List (List ℕ)
  pub free : ℕ

-- A cell more, where there is room for it and its place is in the list; the room is asked for first.
abbrev pub place : Bool → Bool → List (List ℕ) → List ℕ → Store → Reply × Store
place true true after cell s =
    (done, record { contents = after; free = s.free - (entry_size + length cell) })
place true false after cell s = (refused slot_index_not_in_range, s)
place false in_list after cell s = (refused no_contigious_space, s)

abbrev pub seen : List (List ℕ) → ℕ → Reply
seen [] i = refused empty_slot_dir
seen (c ∷ cs) i = elim (get_elem? (c ∷ cs) i) [
  | none ↦ refused slot_id_out_of_bounds
  | some x ↦ found x
]

-- What a page promises for a call.
abbrev pub promise : Store → Call → Reply × Store
promise s (append cell) =
    place (leb (entry_size + length cell) s.free) true (s.contents ++ (cell ∷ [])) cell s
promise s (put k cell) =
    place (leb (entry_size + length cell) s.free) (leb k (length s.contents))
      (insert_at k cell s.contents) cell s
promise s (get i) = (seen s.contents i, s)

abbrev pub promise_all : List Call → Store → List Reply × Store
promise_all [] s = ([], s)
promise_all (c ∷ calls) s =
    let r = promise s c in let rest = promise_all calls r.1 in (r.0 ∷ rest.0, rest.1)

abbrev pub written : RawPage → Outcome PageError (Unit {0}) → Reply × RawPage
written m (ok u m') = (done, m')
written m (err e m') = (refused e, m')
written m (fault x) = (broken, m)

abbrev pub answered : RawPage → Outcome PageError (List ℕ) → Reply × RawPage
answered m (ok cell m') = (found cell, m')
answered m (err e m') = (refused e, m')
answered m (fault x) = (broken, m)

-- A call on the bytes: its reply, and the page it leaves.
abbrev pub perform : Profile → RawPage → Call → Reply × RawPage
perform p m (append cell) = written m (add_cell_append_slot_entry p cell m)
perform p m (put k cell) = written m (add_cell_at_slot_entry_index p k cell m)
perform p m (get i) = answered m (cell_slice_from_id p i m)

abbrev pub perform_all : Profile → List Call → RawPage → List Reply × RawPage
perform_all p [] m = ([], m)
perform_all p (c ∷ calls) m =
    let r = perform p m c in let rest = perform_all p calls r.1 in (r.0 ∷ rest.0, rest.1)

abbrev pub store_of : RawPage → Store
store_of m = record { contents = cells m; free = free_end m - free_start m }

-- The same replies, and a well-formed page that is seen as the store; from `lim` on and in the rest of
-- the header it has the bytes of the first page.
pub record Agrees {R : Type 0} (lim : ℕ) (m : RawPage) (out : R × RawPage) (said : R × Store)
    : Type 0 where
  pub replies : out.0 ≡ said.0
  pub store : store_of out.1 ≡ said.1
  pub valid : IsSlotted lim out.1
  pub rest : (j : ℕ) → lim ≤ j → out.1 j ≡ m j
  pub header : (j : ℕ) → j < header_size → HeaderRest j → out.1 j ≡ m j

module _ (p : Profile) {lim : ℕ} (m : RawPage) (s : IsSlotted lim m) where
  added-Agrees :
      (cell : List ℕ) {after : List (List ℕ)} {out : Outcome PageError (Unit {0})}
      → Adds lim m cell after out
      → Agrees lim m (written m out) (place true true after cell (store_of m))
  added-Agrees cell a = rw a.returns (record {
    replies = refl;
    store = ap₂ (λ x n. record { contents = x; free = n }) a.now (omega (arith, a.space));
    valid = a.valid;
    rest = a.rest;
    header = a.header;
  })

  refused-Agrees : (e : PageError) → Agrees {R = Reply} lim m (refused e, m) (refused e, store_of m)
  refused-Agrees e = record {
    replies = refl;
    store = refl;
    valid = s;
    rest = λ j h. refl;
    header = λ j h k. refl;
  }

  append-Agrees :
      (cell : List ℕ)
      → Agrees lim m (perform p m (append cell)) (promise (store_of m) (append cell))
  append-Agrees cell = elim (dec_le (entry_size + length cell) (free_end m - free_start m)) [
    | yes room ↦
        rw (le→leb _ _ room) (added-Agrees cell (append-Adds p m cell s (omega (arith, s.order))))
    | no tight ↦
        rw
          (
            lt→leb_false (entry_size + length cell) (free_end m - free_start m) (omega arith),
            (add_cell_full p m cell s 0 (omega (arith, s.order))).0,
          )
          (refused-Agrees no_contigious_space)
  ]

  put-Agrees :
      (k : ℕ) (cell : List ℕ)
      → Agrees lim m (perform p m (put k cell)) (promise (store_of m) (put k cell))
  put-Agrees k cell = elim (dec_le (entry_size + length cell) (free_end m - free_start m)) [
    | no tight ↦
        rw
          (
            lt→leb_false (entry_size + length cell) (free_end m - free_start m) (omega arith),
            (add_cell_full p m cell s k (omega (arith, s.order))).1,
          )
          (refused-Agrees no_contigious_space)
    | yes room ↦ elim (dec_le k (length (cells m))) [
      | yes in_list ↦
          rw (le→leb _ _ room, le→leb _ _ in_list)
            (added-Agrees cell (insert-Adds p m cell s k (omega (arith, s.order)) in_list))
      | no far ↦
          rw
            (
              le→leb _ _ room,
              lt→leb_false k (length (cells m)) (omega arith),
              add_cell_far p m cell s k (omega (arith, s.order)) (omega arith),
            )
            (refused-Agrees slot_index_not_in_range)
    ]
  ]

  answered-seen : (xs : List (List ℕ)) (i : ℕ) → answered m (answer xs i m) ≡ (seen xs i, m)
  unfolding answer
  answered-seen [] i = refl
  answered-seen (x ∷ xs) i = ground arith

  get-Agrees : (i : ℕ) → Agrees lim m (perform p m (get i)) (promise (store_of m) (get i))
  get-Agrees i =
      rw (cell_slice_from_id-answer p m s i, answered-seen (cells m) i)
        (record {
          replies = refl;
          store = refl;
          valid = s;
          rest = λ j h. refl;
          header = λ j h k. refl;
        })

  pub perform-Agrees : (c : Call) → Agrees lim m (perform p m c) (promise (store_of m) c)
  perform-Agrees (append cell) = append-Agrees cell
  perform-Agrees (put k cell) = put-Agrees k cell
  perform-Agrees (get i) = get-Agrees i

-- On a well-formed page any sequence of calls that add and read cells gives the replies that the list of
-- its cells and the number of its free bytes promise, in either build, and leaves a well-formed page that
-- is seen as what they promise.
pub perform_all-Agrees :
    (p : Profile) {lim : ℕ} (calls : List Call) (m : RawPage)
    → IsSlotted lim m
    → Agrees lim m (perform_all p calls m) (promise_all calls (store_of m))
perform_all-Agrees p [] m s = record {
  replies = refl;
  store = refl;
  valid = s;
  rest = λ j h. refl;
  header = λ j h k. refl;
}
perform_all-Agrees p (c ∷ calls) m s =
    let one = perform-Agrees p m s c in
    let rest = perform_all-Agrees p calls (perform p m c).1 one.valid in
    record {
      replies =
          ap₂ (λ x xs. x ∷ xs) one.replies
            (rest.replies ∙ ap (λ t. (promise_all calls t).0) one.store);
      store = rest.store ∙ ap (λ t. (promise_all calls t).1) one.store;
      valid = rest.valid;
      rest = λ j h. rest.rest j h ∙ one.rest j h;
      header = λ j h k. rest.header j h k ∙ one.header j h k;
    }
