-- ===== src/Index/Link.antt =====
-- Linking an index page to its right sibling (page/internal_page.rs).
use ink_db.Base.{
  ℕ, ◌+◌, ◌-◌, ◌/◌, ◌^◌, ◌≤◌, ◌<◌, ◌≡◌, ap, ◌∙◌, arith, none, some, tabulate, tabulate-cong, not,
  ◌==◌, if◌then◌else◌,
}
use ink_db.Mem.{RawPage, read_bytes, read_le, write_bytes, le_bytes, le_value}
use ink_db.Mem.Laws.{read_bytes-cong, read_bytes-write_bytes, write_bytes_out}
use ink_db.Mem.Words.{le_value-le_bytes, read_le-write_bytes_apart}
use ink_db.Outcome.{Profile, debug, release, ok}
use ink_db.Page.{PageId}
use ink_db.Slotted.{SlotEntry}
use ink_db.Slotted.Header.{free_start, free_end, get_special_offset, get_special_mut, get_page_type}
use ink_db.Slotted.Layout.{entry_total, entry_base, entry_at, cell_at, cells}
use ink_db.Index.Sibling.{set_right_sibling, has_right_sibling}
use ink_db.Index.Ref.{get_right_sibling}
use ink_db.Index.Layout.{
  IsIndexPage, sibling, special_start, has_right_sibling_lem, get_right_sibling_lem,
}

module _ {m : RawPage} (x : IsIndexPage m) (id : PageId) where
  pub linked : RawPage
  linked = write_bytes m (special_start + 8) (le_bytes 8 id)

  -- Words and cells that end before the special area.
  word-linked : (n o : ℕ) → o + n ≤ special_start → read_le n linked o ≡ read_le n m o
  unfolding linked
  word-linked n o h =
      read_le-write_bytes_apart n m (special_start + 8) (le_bytes 8 id) o (omega arith)

  entry-linked : (i : ℕ) → i < entry_total m → entry_at linked i ≡ entry_at m i
  unfolding entry_at
  entry-linked i h = λ t. record {
    offset = word-linked 2 (entry_base i) (omega (arith, x.slotted.order, x.slotted.bound)) t;
    length = word-linked 2 (entry_base i + 2) (omega (arith, x.slotted.order, x.slotted.bound)) t;
  }

  total-linked : entry_total linked ≡ entry_total m
  unfolding free_start
  total-linked = ap (λ n. (n - 24) / 4) (word-linked 2 12 (omega arith))

  cell-linked : (i : ℕ) → i < entry_total m → cell_at linked i ≡ cell_at m i
  unfolding cell_at linked
  cell-linked i h =
      ap (λ (t : SlotEntry). read_bytes linked t.offset t.length) (entry-linked i h)
      ∙ read_bytes-cong linked m _ _ (entry_at m i).length (λ j l.
        write_bytes_out m (special_start + 8) (le_bytes 8 id) _
          (omega (arith, x.slotted.inside i h)))

  pub cells-linked : cells linked ≡ cells m
  cells-linked =
      ap (λ n. tabulate n (cell_at linked)) total-linked
      ∙ tabulate-cong (entry_total m) (cell_at linked) (cell_at m) cell-linked

  pub sibling-linked : id < 2 ^ 64 → sibling linked ≡ id
  unfolding sibling linked
  sibling-linked h =
      ap le_value (read_bytes-write_bytes m (special_start + 8) (le_bytes 8 id))
      ∙ le_value-le_bytes 8 id h

  pub start-linked : free_start linked ≡ free_start m
  unfolding free_start
  start-linked = word-linked 2 12 (omega arith)

  pub end-linked : free_end linked ≡ free_end m
  unfolding free_end
  end-linked = word-linked 2 14 (omega arith)

  pub type-linked : get_page_type linked ≡ get_page_type m
  unfolding linked get_page_type
  type-linked = write_bytes_out m (special_start + 8) (le_bytes 8 id) 10 (omega arith)

  pub linked-IsIndexPage : IsIndexPage linked
  unfolding get_special_offset
  linked-IsIndexPage = record {
    slotted = record {
      start = omega (arith, start-linked, x.slotted.start);
      aligned = omega (arith, start-linked, x.slotted.aligned);
      order = omega (arith, start-linked, end-linked, x.slotted.order);
      bound = omega (arith, end-linked, x.slotted.bound);
      limit = omega arith;
      inside = λ i h.
          let old : i < entry_total m = omega (arith, total-linked) in
          rw (entry-linked i old) (omega (arith, end-linked, x.slotted.inside i old));
    };
    special = word-linked 2 16 (omega arith) ∙ x.special;
    parsed = λ i h.
        let old : i < entry_total m = omega (arith, total-linked) in
        rw (cell-linked i old) (x.parsed i old);
  }

  pub set_lem : (p : Profile) → set_right_sibling p id m ≡ ok tt linked
  unfolding set_right_sibling get_special_mut linked
  set_lem debug = ground (arith, x.special)
  set_lem release = ground (arith, x.special)

  -- In either build, `set_right_sibling` with a page number that fits 64 bits keeps a well-formed index
  -- page well-formed, with its cells; then
  -- `get_right_sibling` gives the page set, or none for 0, and `has_right_sibling` tells the same.
  pub set_right_sibling_lem :
      (p : Profile)
      → id < 2 ^ 64
      → (m' : RawPage) × (set_right_sibling p id m ≡ ok tt m')
        × IsIndexPage m'
        × (cells m' ≡ cells m)
        × (get_right_sibling p m' ≡ ok (if id == 0 then none else some id) m')
        × (has_right_sibling p m' ≡ ok (not (id == 0)) m')
  set_right_sibling_lem p h = (
    linked,
    set_lem p,
    linked-IsIndexPage,
    cells-linked,
    get_right_sibling_lem p linked linked-IsIndexPage.special
        ∙ ap (λ s. ok (if s == 0 then none else some s) linked) (sibling-linked h),
    has_right_sibling_lem p linked linked-IsIndexPage.special
        ∙ ap (λ s. ok (not (s == 0)) linked) (sibling-linked h),
  )
