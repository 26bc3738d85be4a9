-- ===== src/Index/Added.antt =====
-- A new cell on an index page, and the searches on it before and after (page/internal_page.rs:
-- `IndexCellOwned::new`, `add_cell_at_slot_entry_index`, `find_child_ptr`).
use ink_db.Base.{
  ℕ, zero, suc, ◌^◌, ◌≤◌, ◌<◌, ◌≡◌, refl, ap, sym, ap₂, ◌∙◌, List, [], ◌∷◌, ◌++◌, Bool, true, not,
  ◌&&◌, arith, All, some, if◌then◌else◌, length, insert_at, Option,
}
use mathlib.Core.Path.{subst}
use ink_db.Mem.{RawPage}
use ink_db.Outcome.{Profile, ok}
use ink_db.Page.{PageId}
use ink_db.Slotted.Layout.{cells}
use ink_db.Slotted.Place.{HasRoom}
use ink_db.Index.Header.{add_cell_at_slot_entry_index}
use ink_db.Index.Cell.{new, get_value_ptr}
use ink_db.Index.Cell.Laws.{key_of, Holds, encode-Holds, Holds-IsCell, Holds-key_of}
use ink_db.Index.Find.{lt_bytes, find_child_ptr}
use ink_db.Index.Layout.{IsIndexPage, sibling}
use ink_db.Index.Grow.{add_cell_at-Grows}
use ink_db.Index.Route.{first_above, route, find_child_ptr-route}
use ink_db.Index.Sorted.{Ascends, children, StaysOn}

-- The index of the cell that leads to the child `n`.
abbrev pub child_index : PageId → ℕ → ℕ
child_index zero n = n
child_index (suc s) n = suc n

-- The key is not below any of the cells'.
abbrev pub passes_all : List ℕ → List (List ℕ) → Bool
passes_all key [] = true
passes_all key (c ∷ cs) = not (lt_bytes key (key_of c)) && passes_all key cs

insert_at-middle :
    (xs ys : List (List ℕ)) (c : List ℕ) → insert_at (length xs) c (xs ++ ys) ≡ xs ++ (c ∷ ys)
insert_at-middle [] ys c = refl
insert_at-middle (x ∷ xs) ys c = ap (λ zs. x ∷ zs) (insert_at-middle xs ys c)

module _ (xs ys : List (List ℕ)) (c : List ℕ) where
  children-insert_at :
      (s : PageId) (cs : List (List ℕ))
      → children s cs ≡ xs ++ ys
      → child_index s 0 ≤ length cs
      → children s (insert_at (child_index s (length xs)) c cs) ≡ xs ++ (c ∷ ys)
  children-insert_at zero cs e h = ap (insert_at (length xs) c) e ∙ insert_at-middle xs ys c
  children-insert_at (suc s) [] e h = absurd (omega arith)
  children-insert_at (suc s) (d ∷ cs) e h =
      ap (insert_at (length xs) c) e ∙ insert_at-middle xs ys c

first_above-middle :
    (key : List ℕ) (xs ys : List (List ℕ)) (c : List ℕ)
    → first_above key (xs ++ (c ∷ ys)) ≡ (
        if passes_all key xs && lt_bytes key (key_of c)
        then some (get_value_ptr c)
        else first_above key (xs ++ ys))
unfolding first_above
first_above-middle key [] ys c = refl
first_above-middle key (x ∷ xs) ys c = ground (arith, first_above-middle key xs ys c)

All-around :
    (P : List ℕ → Type 0) (xs ys : List (List ℕ)) (c : List ℕ)
    → All P (xs ++ ys)
    → P c
    → All P (xs ++ (c ∷ ys))
All-around P [] ys c h k = (k, h)
All-around P (x ∷ xs) ys c h k = (h.0, All-around P xs ys c h.1 k)

Ascends-middle :
    (xs ys : List (List ℕ)) (c : List ℕ)
    → Ascends (xs ++ ys)
    → All (λ d. lt_bytes (key_of d) (key_of c) ≡ true) xs
    → All (λ d. lt_bytes (key_of c) (key_of d) ≡ true) ys
    → Ascends (xs ++ (c ∷ ys))
Ascends-middle [] ys c a l r = (r, a)
Ascends-middle (x ∷ xs) ys c a l r = (
  All-around (λ d. lt_bytes (key_of x) (key_of d) ≡ true) xs ys c a.0 l.0,
  Ascends-middle xs ys c a.1 l.1 r,
)

module _ (key : List ℕ) where
  route-children :
      (s : PageId) (cs : List (List ℕ)) (m : RawPage)
      → child_index s 0 ≤ length cs
      → StaysOn key s cs
      → route key s cs m ≡ ok (first_above key (children s cs)) m
  unfolding route
  route-children zero cs m n h = refl
  route-children (suc s) [] m n h = absurd (omega arith)
  route-children (suc s) (c ∷ cs) m n h = ground arith

  StaysOn-insert_at :
      (s : PageId) (cs : List (List ℕ)) (c : List ℕ) (n : ℕ)
      → child_index s 0 ≤ length cs
      → StaysOn key s cs
      → StaysOn key s (insert_at (child_index s n) c cs)
  StaysOn-insert_at zero cs c n l h = tt
  StaysOn-insert_at (suc s) [] c n l h = absurd (omega arith)
  StaysOn-insert_at (suc s) (d ∷ cs) c n l h = h

-- `new` makes the cell of a key and a child.
new-Holds :
    (key : List ℕ) (child : PageId) {c : List ℕ}
    → new key child ≡ some c
    → child < 2 ^ 64
    → Holds key child c
unfolding new
new-Holds key child e h =
    let small : length key < 4058 = ground arith in
    subst (Holds key child) (ground arith) (encode-Holds key child small h)

child_index-insert_at :
    (s : PageId) (cs : List (List ℕ)) (c : List ℕ) (n : ℕ)
    → child_index s 0 ≤ length (insert_at (child_index s n) c cs)
child_index-insert_at zero cs c n = omega arith
child_index-insert_at (suc s) [] c n = omega arith
child_index-insert_at (suc s) (d ∷ cs) c n = omega arith

length_le-++ : (xs ys : List (List ℕ)) → length xs ≤ length (xs ++ ys)
length_le-++ [] ys = omega arith
length_le-++ (x ∷ xs) ys = omega (arith, length_le-++ xs ys)

child_index-bound :
    (s : PageId) (cs xs ys : List (List ℕ))
    → children s cs ≡ xs ++ ys
    → child_index s 0 ≤ length cs
    → child_index s (length xs) ≤ length cs
child_index-bound zero cs xs ys e h = omega (arith, ap length e, length_le-++ xs ys)
child_index-bound (suc s) [] xs ys e h = absurd (omega arith)
child_index-bound (suc s) (c ∷ cs) xs ys e h = omega (arith, ap length e, length_le-++ xs ys)

-- A search for a key that stays on the page, on the cells to children.
find-children :
    (p : Profile) {m : RawPage} (wanted : List ℕ)
    → IsIndexPage m
    → child_index (sibling m) 0 ≤ length (cells m)
    → StaysOn wanted (sibling m) (cells m)
    → find_child_ptr p wanted m ≡ ok (first_above wanted (children (sibling m) (cells m))) m
find-children p {m} wanted x n h =
    find_child_ptr-route p wanted x ∙ route-children wanted (sibling m) (cells m) m n h

module _ (p : Profile) {m : RawPage} (x : IsIndexPage m) (wanted : List ℕ) where
  -- On a well-formed index page whose cells to children have ascending keys, with its high key if it has
  -- a right sibling, the cell that `IndexCellOwned::new` makes of a key and a child is added at its place
  -- between the smaller and the larger keys, where there is room. The page stays well-formed and keeps
  -- its sibling, and the keys still ascend. A search for a key that is not above the high key then gives
  -- the new child where that key is below the new one and not below the smaller ones, and otherwise what it gave before.
  pub find_child_ptr-added :
      (key : List ℕ) (child : PageId) {c : List ℕ} (xs ys : List (List ℕ))
      → new key child ≡ some c
      → child < 2 ^ 64
      → HasRoom m c
      → children (sibling m) (cells m) ≡ xs ++ ys
      → child_index (sibling m) 0 ≤ length (cells m)
      → Ascends (xs ++ ys)
      → All (λ d. lt_bytes (key_of d) key ≡ true) xs
      → All (λ d. lt_bytes key (key_of d) ≡ true) ys
      → StaysOn wanted (sibling m) (cells m)
      → (m' : RawPage) × (a : Option PageId) × (add_cell_at_slot_entry_index p
            (child_index (sibling m) (length xs))
            c
            m
          ≡ ok tt m')
        × IsIndexPage m'
        × (sibling m' ≡ sibling m)
        × Ascends (children (sibling m') (cells m'))
        × (find_child_ptr p wanted m ≡ ok a m)
        × (find_child_ptr p wanted m'
            ≡ (ok (if passes_all wanted xs && lt_bytes wanted key then some child else a) m'))
  find_child_ptr-added key child {c} xs ys made small room e high asc below above stays =
      let holds = new-Holds key child made small in
      let same : key_of c ≡ key = Holds-key_of holds in
      let s : PageId = sibling m in
      let k : ℕ = child_index s (length xs) in
      let (m', returns, g) =
        add_cell_at-Grows x k c (Holds-IsCell holds) p room
          (child_index-bound s (cells m) xs ys e high) in
      let now : children (sibling m') (cells m') ≡ xs ++ (c ∷ ys) =
        ap₂ children g.same_sibling g.now ∙ children-insert_at xs ys c s (cells m) e high in
      let there : (P : PageId → List (List ℕ) → Type 0)
          → P s (insert_at k c (cells m))
          → P (sibling m') (cells m') =
        λ P h. subst (λ t. P t (cells m')) (sym g.same_sibling) (subst (P s) (sym g.now) h) in
      (
        m',
        first_above wanted (xs ++ ys),
        returns,
        g.valid,
        g.same_sibling,
        subst Ascends (sym now) (Ascends-middle xs ys c asc (rw same below) (rw same above)),
        find-children p wanted x high stays ∙ ap (λ cs. ok (first_above wanted cs) m) e,
        find-children p wanted g.valid
              (there (λ t cs. child_index t 0 ≤ length cs)
                (child_index-insert_at s (cells m) c (length xs)))
              (there (StaysOn wanted)
                (StaysOn-insert_at wanted s (cells m) c (length xs) high stays))
            ∙ ap (λ cs. ok (first_above wanted cs) m') now
            ∙ ap (λ o. ok o m')
                (first_above-middle wanted xs ys c
                  ∙ ap₂
                      (λ t v.
                        if passes_all wanted xs && lt_bytes wanted t
                        then some v
                        else first_above wanted (xs ++ ys))
                      same holds.child_kept),
      )
