-- ===== src/Tests/Routes.antt =====
-- An index page with two cells, and keys that are searched on it (page/internal_page.rs).
use ink_db.Base.{
  ℕ, ℕ_discrete, ◌≡◌, refl, All, Option, sym, ap, ap₂, ◌∙◌, List, [], ◌∷◌, ◌++◌, arith, length,
  insert_at, none, some,
}
use ink_db.Mem.{RawPage}
use ink_db.Outcome.{debug, release, ok, fault, undefined}
use mathlib.Core.Path.{subst}
use ink_db.Slotted.Layout.{cells}
use ink_db.Index.Header.{init_in_place, add_cell_at_slot_entry_index}
use ink_db.Index.Cell.{encode, new as new_cell, get_value_ptr}
use ink_db.Index.Find.{lt_bytes, find_child_ptr}
use ink_db.Index.Layout.{IsIndexPage, sibling, special_start}
use ink_db.Index.Fresh.{IsFreshIndex, init_in_place-IsFreshIndex}
use ink_db.Index.Grow.{Grows, add_cell_at-Grows, special-cong, sibling-cong}
use ink_db.Page.Kind.{index_leaf}
use ink_db.Index.Edit.{link, edit}
use ink_db.Buffer.Frame.{
  new, guard, idle, System, Reach, here, later, IsInit, read_guard, look, write_guard, write_access,
  write_drop,
}
use ink_db.Page.{PageId}
use ink_db.Index.Bulk.{Route, fill, fill-find}
use ink_db.Slotted.Api
use ink_db.Slotted.Api.{IsPage, Keeps}
use ink_db.Slotted.Api.Refines.{perform_all-Keeps}
use ink_db.Slotted.Refine
use ink_db.Slotted.Fields as Setters
use ink_db.Slotted.Cells
use ink_db.Slotted.Insert.{Adds, append-Adds}
use ink_db.Index.Corrupt.{find_child_ptr-past}
use ink_db.Index.Added.{child_index, find_child_ptr-added}
use ink_db.Buffer.Frame.Pages.{edits, Searched, readers-find}
use ink_db.Index.Sorted.{Ascends, StaysOn, children, find_child_ptr-between, find_child_ptr-last}

start : (m' : RawPage) × (init_in_place debug 77 (λ i. 0) ≡ ok tt m') × IsFreshIndex 77 m'
start = init_in_place-IsFreshIndex debug 77 (λ i. 0) (omega arith)

-- Keys below 10 lead to the page 1, the keys from there below 20 to the page 2.
abbrev low : List ℕ
low = encode (10 ∷ []) 1

abbrev high : List ℕ
high = encode (20 ∷ []) 2

one :
    (m' : RawPage) × (add_cell_at_slot_entry_index debug 0 low start.0 ≡ ok tt m')
    × Grows start.0 0 low m'
one =
    add_cell_at-Grows start.2.valid 0 low (omega arith) debug
      (omega (arith, start.2.space, start.2.valid.slotted.order)) (omega arith)

one-cells : cells one.0 ≡ low ∷ []
one-cells = one.2.now ∙ ap (insert_at 0 low) start.2.no_cells

two :
    (m' : RawPage) × (add_cell_at_slot_entry_index debug 1 high one.0 ≡ ok tt m')
    × Grows one.0 1 high m'
two =
    add_cell_at-Grows one.2.valid 1 high (omega arith) debug
      (omega (arith, one.2.space, start.2.space, one.2.valid.slotted.order))
      (omega (arith, ap length one-cells))

two-cells : cells two.0 ≡ low ∷ high ∷ []
two-cells = two.2.now ∙ ap (insert_at 1 high) one-cells

two-sibling : sibling two.0 ≡ 0
two-sibling = two.2.same_sibling ∙ one.2.same_sibling ∙ start.2.no_sibling

two-children : children (sibling two.0) (cells two.0) ≡ low ∷ high ∷ []
two-children = ap₂ children two-sibling two-cells

two-Ascends : Ascends (children (sibling two.0) (cells two.0))
unfolding lt_bytes
two-Ascends = subst Ascends (sym two-children) ((refl, tt), (tt, tt))

stays : (key : List ℕ) → StaysOn key (sibling two.0) (cells two.0)
stays key = subst (λ s. StaysOn key s (cells two.0)) (sym two-sibling) tt

between_two_keys : find_child_ptr release (15 ∷ []) two.0 ≡ ok (some (get_value_ptr high)) two.0
unfolding lt_bytes
between_two_keys =
    find_child_ptr-between release (15 ∷ []) two.2.valid [] [] low high two-children two-Ascends
      (stays (15 ∷ [])) refl refl

beyond_last_key : find_child_ptr release (20 ∷ []) two.0 ≡ ok none two.0
unfolding lt_bytes
beyond_last_key =
    find_child_ptr-last release (20 ∷ []) two.2.valid (low ∷ []) high two-children two-Ascends
      (stays (20 ∷ [])) refl

-- A frame with the page.
abbrev framed : System
framed = record { frame = new 10 index_leaf two.0; pc = λ i. idle; log = [] }

framed-IsInit : IsInit 10 index_leaf two.0 framed
framed-IsInit = record { fresh = refl; begun = λ i. refl; empty = refl }

-- Thread 1 sets the right sibling to the page 5; then the thread 2 reads.
linked : (t : System) × Reach framed t
unfolding new ℕ_discrete
linked = (
  _,
  later 2
      (later 2
        (later 1
          (later 1
            (later 1 here (write_guard {w = edits release (link 5 ∷ [])} refl refl (λ j. refl)))
            write_access)
          write_drop)
        (read_guard {n = 3} refl refl))
      look,
)

found_by_readers : All (Searched release (15 ∷ [])) (edit release (link 5) two.0 ∷ [])
unfolding linked new guard ℕ_discrete
found_by_readers =
    readers-find release (15 ∷ []) framed-IsInit linked.1 two.2.valid
      ((link 5 ∷ [], (omega arith, tt), refl), tt) 2 2 (edit release (link 5) two.0 ∷ []) refl

-- A cell whose key lies between the two.
abbrev middle : List ℕ
middle = encode (15 ∷ []) 3

find_child_ptr-added_example :
    (m' : RawPage) × (a : Option PageId) × (add_cell_at_slot_entry_index debug
        (child_index (sibling two.0) 1)
        middle
        two.0
      ≡ ok tt m')
    × IsIndexPage m'
    × (sibling m' ≡ sibling two.0)
    × Ascends (children (sibling m') (cells m'))
    × (find_child_ptr debug (12 ∷ []) two.0 ≡ ok a two.0)
    × (find_child_ptr debug (12 ∷ []) m' ≡ ok (some 3) m')
unfolding lt_bytes new_cell
find_child_ptr-added_example =
    find_child_ptr-added debug two.2.valid (12 ∷ []) (15 ∷ []) 3 (low ∷ []) (high ∷ []) refl
      (omega arith)
      (omega (arith, two.2.space, one.2.space, start.2.space, start.2.valid.slotted.order))
      two-children (rw (two-sibling, two-cells) (omega arith)) ((refl, tt), (tt, tt)) (refl, tt)
      (refl, tt) (stays (12 ∷ []))

abbrev routes : List Route
routes = (10 ∷ [], 1) ∷ (20 ∷ [], 2) ∷ []

fill-find_example :
    (m1 m' : RawPage) × (init_in_place release 9 two.0 ≡ ok tt m1)
    × (fill release routes m1 ≡ ok tt m')
    × IsIndexPage m'
    × (find_child_ptr release (15 ∷ []) m' ≡ ok (some 2) m')
unfolding lt_bytes
fill-find_example =
    fill-find release 9 two.0 routes (15 ∷ []) (omega arith) (omega arith, (omega arith, tt))
      (omega arith)

two-IsPage : IsPage special_start two.0
two-IsPage = record {
  slotted = two.2.valid.slotted;
  area = λ n. rw two.2.valid.special (omega arith, omega arith);
}

abbrev page_calls : List Api.Call
page_calls =
    Api.on_cells (Refine.get 0)
    ∷ Api.assign (Setters.lsn 9)
    ∷ Api.walk
    ∷ Api.special
    ∷ Api.inspect
    ∷ Api.on_cells (Refine.append low)
    ∷ Api.room
    ∷ []

perform_all-Keeps_example :
    Keeps special_start
      (Api.perform_all debug page_calls two.0)
      (Api.promise_all page_calls (Api.page_of two.0))
perform_all-Keeps_example = perform_all-Keeps debug page_calls two.0 two-IsPage (omega arith)

-- A cell of ten bytes that says its key has 200.
abbrev broken_cell : List ℕ
broken_cell = 1 ∷ 0 ∷ 0 ∷ 0 ∷ 0 ∷ 0 ∷ 0 ∷ 0 ∷ 200 ∷ 0 ∷ []

broken_page :
    Adds special_start start.0 broken_cell
      (cells start.0 ++ (broken_cell ∷ []))
      (Cells.add_cell_append_slot_entry debug broken_cell start.0)
broken_page =
    append-Adds debug start.0 broken_cell start.2.valid.slotted
      (omega (arith, start.2.space, start.2.valid.slotted.order))

find_child_ptr-past_example : find_child_ptr release (15 ∷ []) broken_page.page ≡ fault undefined
find_child_ptr-past_example =
    find_child_ptr-past release (15 ∷ []) broken_cell [] broken_page.valid
      (special-cong start.0 broken_page.page (broken_page.header 16 (omega arith) (omega arith))
          (broken_page.header 17 (omega arith) (omega arith))
        ∙ start.2.valid.special)
      (sibling-cong start.0 broken_page.page broken_page.rest ∙ start.2.no_sibling)
      (broken_page.now ∙ ap (λ cs. cs ++ (broken_cell ∷ [])) start.2.no_cells) (omega arith)
      (omega arith)
