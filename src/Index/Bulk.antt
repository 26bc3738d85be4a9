-- ===== src/Index/Bulk.antt =====
-- A new index page that is filled with keys and children, and the searches on it
-- (page/internal_page.rs: `init_in_place`, `IndexCellOwned::new`, `add_cell_append_slot_entry`,
-- `find_child_ptr`).
use ink_db.Base.{
  ℕ, ◌+◌, ◌-◌, ◌^◌, ◌≤◌, ◌<◌, ◌≡◌, refl, sym, ap, ap₂, ◌∙◌, List, [], ◌∷◌, ◌++◌, All, arith, none,
  some, if◌then◌else◌, length, insert_at-length, Option, map,
}
use mathlib.Core.List.{append-nil, append_assoc}
use ink_db.Mem.{RawPage}
use ink_db.Outcome.{Profile, ok, pure, panicked, crash, ◌>>◌}
use ink_db.Page.{PageId}
use ink_db.Slotted.Header.{free_start, free_end}
use ink_db.Slotted.Layout.{cells}
use ink_db.Index.{Indexed}
use ink_db.Index.Header.{init_in_place, add_cell_append_slot_entry}
use ink_db.Index.Cell.{encode, new}
use ink_db.Index.Cell.Laws.{encode-Holds, Holds-IsCell, Holds-key_of}
use ink_db.Index.Find.{lt_bytes, find_child_ptr}
use ink_db.Index.Layout.{IsIndexPage, sibling}
use ink_db.Index.Fresh.{init_in_place-IsFreshIndex}
use ink_db.Index.Grow.{Grows, add_cell_append-Grows}
use ink_db.Index.Route.{first_above, route, find_child_ptr-route}

-- A key and its child.
abbrev pub Route : Type 0
Route = List ℕ × PageId

-- A cell is made of each and appended; an error or a panic ends it.
abbrev pub fill : Profile → List Route → Indexed (Unit {0})
fill p [] = pure tt
fill p ((key, child) ∷ rest) = elim (new key child) [
  | some c ↦ add_cell_append_slot_entry p c >> fill p rest
  | none ↦ crash panicked
]

-- The child of the first key that is above the wanted one.
abbrev pub child_for : List ℕ → List Route → Option PageId
child_for wanted [] = none
child_for wanted ((key, child) ∷ rest) =
    if lt_bytes wanted key then some child else child_for wanted rest

-- the bytes that the cells take with their entries
abbrev pub total : List Route → ℕ
total [] = 0
total ((key, child) ∷ rest) = 14 + length key + total rest

abbrev pub IsChild : Route → Type 0
IsChild (key, child) = child < 2 ^ 64

abbrev pub cell : Route → List ℕ
cell (key, child) = encode key child

new-small :
    (key : List ℕ) (child : PageId) → length key < 4058 → new key child ≡ some (encode key child)
unfolding new
new-small key child h = ground arith

-- The page after one cell more.
fill-step :
    (p : Profile) (key : List ℕ) (child : PageId) (rest : List Route) (m m1 : RawPage)
    → length key < 4058
    → add_cell_append_slot_entry p (encode key child) m ≡ ok tt m1
    → fill p ((key, child) ∷ rest) m ≡ fill p rest m1
unfolding new
fill-step p key child rest m m1 h e = ground arith

-- A page that has got the cells of the routes behind its own.
pub record Filled (p : Profile) (rs : List Route) (m : RawPage) : Type 0 where
  pub page : RawPage
  pub returns : fill p rs m ≡ ok tt page
  pub valid : IsIndexPage page
  pub now : cells page ≡ cells m ++ map cell rs
  pub same_sibling : sibling page ≡ sibling m

step-Filled :
    (p : Profile) (key : List ℕ) (child : PageId) (rest : List Route) {m m1 : RawPage}
    → length key < 4058
    → add_cell_append_slot_entry p (encode key child) m ≡ ok tt m1
    → Grows m (length (cells m)) (encode key child) m1
    → Filled p rest m1
    → Filled p ((key, child) ∷ rest) m
step-Filled p key child rest {m} {m1} h e g f = record {
  page = f.page;
  returns = fill-step p key child rest m m1 h e ∙ f.returns;
  valid = f.valid;
  now =
      f.now
      ∙ ap (λ cs. cs ++ map cell rest) (g.now ∙ insert_at-length (cells m) (encode key child))
      ∙ append_assoc (cells m) (encode key child ∷ []) (map cell rest);
  same_sibling = f.same_sibling ∙ g.same_sibling;
}

pub fill-Filled :
    (p : Profile) (rs : List Route) {m : RawPage}
    → IsIndexPage m
    → All IsChild rs
    → total rs ≤ free_end m - free_start m
    → Filled p rs m
fill-Filled p [] {m} x h n = record {
  page = m;
  returns = refl;
  valid = x;
  now = sym (append-nil (cells m));
  same_sibling = refl;
}
fill-Filled p ((key, child) ∷ rest) {m} x h n =
    let small : length key < 4058 = omega (arith, x.slotted.start, x.slotted.bound) in
    let (m1, e, g) =
      add_cell_append-Grows (encode key child) p x (Holds-IsCell (encode-Holds key child small h.0))
        (omega (arith, x.slotted.order)) in
    step-Filled p key child rest small e g (fill-Filled p rest g.valid h.1 (omega (arith, g.space)))

pub first_above-cells :
    (wanted : List ℕ) (rs : List Route)
    → All IsChild rs
    → All (λ r. length r.0 < 4058) rs
    → first_above wanted (map cell rs) ≡ child_for wanted rs
unfolding first_above
first_above-cells wanted [] h n = refl
first_above-cells wanted ((key, child) ∷ rest) h n =
    let holds = encode-Holds key child n.0 h.0 in
    ap₂ (λ k v. if lt_bytes wanted k then some v else first_above wanted (map cell rest))
      (Holds-key_of holds) holds.child_kept
    ∙ ap (λ o. if lt_bytes wanted key then some child else o)
        (first_above-cells wanted rest h.1 n.1)

pub total-small : (rs : List Route) → total rs ≤ 4056 → All (λ r. length r.0 < 4058) rs
total-small [] h = tt
total-small ((key, child) ∷ rest) h = (omega arith, total-small rest (omega arith))

-- In either build, a new index page takes the cells of any keys and children that fit its 4056 bytes, a
-- cell taking its key and 14 bytes, and stays well-formed; a search for a key then gives
-- the child of the first key in the list that is above it, or none.
pub fill-find :
    (p : Profile) (lsn : ℕ) (m : RawPage) (rs : List Route) (wanted : List ℕ)
    → lsn < 2 ^ 64
    → All IsChild rs
    → total rs ≤ 4056
    → (m1 m' : RawPage) × (init_in_place p lsn m ≡ ok tt m1)
      × (fill p rs m1 ≡ ok tt m')
      × IsIndexPage m'
      × (find_child_ptr p wanted m' ≡ ok (child_for wanted rs) m')
unfolding route
fill-find p lsn m rs wanted l h n =
    let (m1, e, x) = init_in_place-IsFreshIndex p lsn m l in
    let f = fill-Filled p rs x.valid h (omega (arith, x.space)) in
    (
      m1,
      f.page,
      e,
      f.returns,
      f.valid,
      find_child_ptr-route p wanted f.valid
          ∙ ap (λ s. route wanted s (cells f.page) f.page) (f.same_sibling ∙ x.no_sibling)
          ∙ ap (λ cs. ok (first_above wanted cs) f.page)
              (f.now ∙ ap (λ cs. cs ++ map cell rs) x.no_cells)
          ∙ ap (λ o. ok o f.page) (first_above-cells wanted rs h (total-small rs n)),
    )
