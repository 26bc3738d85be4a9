-- ===== src/Index/Edit.antt =====
-- Calls that edit an index page (page/internal_page.rs), whatever they return.
use ink_db.Base.{ℕ, ◌+◌, ◌^◌, ◌<◌, ◌≤◌, ◌≡◌, ◌∙◌, sym, ap, List, arith, length, dec_le}
use mathlib.Core.Path.{subst}
use ink_db.Mem.{RawPage}
use ink_db.Outcome.{Profile, Outcome, ok, err, fault}
use ink_db.Page.{PageId}
use ink_db.Slotted.{entry_size, slot_index_not_in_range, no_contigious_space}
use ink_db.Page.Kind.{set_subtype_page_bits}
use ink_db.Slotted.Header.{free_start, free_end, get_page_type}
use ink_db.Slotted.Fields.{SameRest, SameRest-IsSlotted, SameRest-special, same_total, same_cell}
use ink_db.Slotted.Layout.{cells, entry_total}
use ink_db.Slotted.Insert.{add_cell_full, add_cell_far}
use ink_db.Index.{IndexPageError, page_error}
use ink_db.Index.Header.{add_cell_append_slot_entry, add_cell_at_slot_entry_index, set_level}
use ink_db.Index.Level.{typed, typed-SameRest, set_level_effect}
use ink_db.Index.Sibling.{set_right_sibling}
use ink_db.Index.Cell.Laws.{IsCell}
use ink_db.Index.Layout.{IsIndexPage}
use ink_db.Index.Grow.{add_cell_at-Grows, add_cell_append-Grows, converted}
use ink_db.Index.Link.{set_right_sibling_lem}

pub data Edit : Type 0 where
  append : List ℕ → Edit
  put : ℕ → List ℕ → Edit
  link : PageId → Edit
  raise : ℕ → Edit

-- A cell that has the layout of index cells, a page number of 64 bits, and a level of four bits.
abbrev pub IsGood : Edit → Type 0
IsGood (append c) = IsCell c
IsGood (put k c) = IsCell c
IsGood (link id) = id < 2 ^ 64
IsGood (raise lvl) = lvl ≤ 15

-- the page that a call leaves
abbrev pub left : {A : Type 0} → RawPage → Outcome IndexPageError A → RawPage
left m (ok a m') = m'
left m (err e m') = m'
left m (fault x) = m

unfoldable pub edit : Profile → Edit → RawPage → RawPage
edit p (append c) m = left m (add_cell_append_slot_entry p c m)
edit p (put k c) m = left m (add_cell_at_slot_entry_index p k c m)
edit p (link id) m = left m (set_right_sibling p id m)
edit p (raise lvl) m = left m (set_level lvl m)

module _ (p : Profile) {m : RawPage} (x : IsIndexPage m) where
  left-IsIndexPage :
      {A : Type 0} {out : Outcome IndexPageError A} (m' : RawPage) (a : A)
      → out ≡ ok a m'
      → IsIndexPage m'
      → IsIndexPage (left m out)
  left-IsIndexPage m' a e h = subst IsIndexPage (sym (ap (left m) e)) h

  kept-IsIndexPage :
      {A : Type 0} {out : Outcome IndexPageError A} (e : IndexPageError)
      → out ≡ err e m
      → IsIndexPage (left m out)
  kept-IsIndexPage e h = subst IsIndexPage (sym (ap (left m) h)) x

  put-IsIndexPage : (k : ℕ) (c : List ℕ) → IsCell c → IsIndexPage (edit p (put k c) m)
  unfolding edit add_cell_at_slot_entry_index converted
  put-IsIndexPage k c good = elim (dec_le (free_start m + entry_size + length c) (free_end m)) [
    | no full ↦
        kept-IsIndexPage (page_error no_contigious_space)
          (ap converted (add_cell_full p m c x.slotted k (omega arith)).1)
    | yes room ↦ elim (dec_le k (length (cells m))) [
      | yes in_list ↦
          let (m', e, g) = add_cell_at-Grows x k c good p room in_list in
          left-IsIndexPage m' tt e g.valid
      | no far ↦
          kept-IsIndexPage (page_error slot_index_not_in_range)
            (ap converted (add_cell_far p m c x.slotted k room (omega arith)))
    ]
  ]

  append-IsIndexPage : (c : List ℕ) → IsCell c → IsIndexPage (edit p (append c) m)
  unfolding edit add_cell_append_slot_entry converted
  append-IsIndexPage c good = elim (dec_le (free_start m + entry_size + length c) (free_end m)) [
    | no full ↦
        kept-IsIndexPage (page_error no_contigious_space)
          (ap converted (add_cell_full p m c x.slotted 0 (omega arith)).0)
    | yes room ↦
        let (m', e, g) = add_cell_append-Grows c p x good room in left-IsIndexPage m' tt e g.valid
  ]

  pub SameRest-IsIndexPage : {m' : RawPage} → SameRest m m' → IsIndexPage m'
  SameRest-IsIndexPage s = record {
    slotted = SameRest-IsSlotted s x.slotted;
    special = SameRest-special s ∙ x.special;
    parsed = λ i h.
        let old : i < entry_total m = omega (arith, same_total s) in
        rw
          (same_cell s i
            (omega (arith, x.slotted.start, x.slotted.order, (x.slotted.inside i old).0)))
          (x.parsed i old);
  }

  -- Any of the calls leaves a well-formed index page well-formed, whether it returns or gives an error.
  pub edit-IsIndexPage : (e : Edit) → IsGood e → IsIndexPage (edit p e m)
  unfolding edit
  edit-IsIndexPage (append c) good = append-IsIndexPage c good
  edit-IsIndexPage (put k c) good = put-IsIndexPage k c good
  edit-IsIndexPage (link id) good =
      let r = set_right_sibling_lem x id p good in left-IsIndexPage r.0 tt r.1 r.2
  edit-IsIndexPage (raise lvl) good =
      left-IsIndexPage (typed (set_subtype_page_bits (get_page_type m) lvl) m) tt
        (set_level_effect lvl m)
        (SameRest-IsIndexPage (typed-SameRest (set_subtype_page_bits (get_page_type m) lvl) m))
