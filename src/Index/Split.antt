-- ===== src/Index/Split.antt =====
-- A new index page with a high key and a right sibling, and the searches on it and on the page beside it
-- (page/internal_page.rs: `init_in_place`, `IndexCellOwned::new`, `add_cell_append_slot_entry`,
-- `set_right_sibling`, `find_child_ptr`).
use ink_db.Base.{
  ℕ, zero, suc, ◌^◌, ◌≤◌, ◌<◌, ◌≡◌, ◌≢◌, refl, sym, ap, ap₂, ◌∙◌, List, [], ◌∷◌, ◌++◌, All, arith,
  none, some, if◌then◌else◌, map, Bool-cases, inl, inr, ◌⊎◌, true, false,
}
use ink_db.Mem.{RawPage}
use ink_db.Outcome.{Profile, ok, ◌>>◌}
use ink_db.Page.{PageId}
use ink_db.Slotted.Layout.{cells}
use ink_db.Index.{Indexed}
use ink_db.Index.Header.{init_in_place}
use ink_db.Index.Sibling.{set_right_sibling}
use ink_db.Index.Cell.Laws.{encode-Holds, Holds-key_of, key_of}
use ink_db.Index.Find.{lt_bytes, find_child_ptr}
use ink_db.Index.Layout.{IsIndexPage}
use ink_db.Index.Fresh.{init_in_place-IsFreshIndex}
use ink_db.Index.Link.{linked, cells-linked, sibling-linked, linked-IsIndexPage, set_lem}
use ink_db.Index.Order.{lt_bytes_irrefl, lt_bytes_asymm, lt_bytes_total}
use ink_db.Index.Sorted.{lt_bytes_trans}
use ink_db.Index.Route.{first_above, route, find_child_ptr-route}
use ink_db.Index.Bulk.{
  Route, fill, child_for, total, IsChild, cell, fill-Filled, first_above-cells, total-small,
  fill-find,
}

-- A page is prepared, gets the high key and its cells, and is linked to the page `id`.
abbrev pub make_linked : Profile → ℕ → Route → List Route → PageId → Indexed (Unit {0})
make_linked p lsn high rs id = init_in_place p lsn >> (fill p (high ∷ rs) >> set_right_sibling p id)

-- A page that sends the keys above the high key to the sibling.
pub record Linked (p : Profile) (high : List ℕ) (rs : List Route) (id : PageId) (m : RawPage)
    : Type 0 where
  pub valid : IsIndexPage m
  pub finds :
      (wanted : List ℕ)
      → find_child_ptr p wanted m
        ≡ ok (if lt_bytes high wanted then some id else child_for wanted rs) m

route-linked :
    (wanted : List ℕ) (id : PageId) (c : List ℕ) (cs : List (List ℕ)) (m : RawPage)
    → 0 < id
    → route wanted id (c ∷ cs) m
      ≡ ok (if lt_bytes (key_of c) wanted then some id else first_above wanted cs) m
unfolding route
route-linked wanted zero c cs m h = absurd (omega arith)
route-linked wanted (suc s) c cs m h = refl

make_linked-Linked :
    (p : Profile) (lsn : ℕ) (m : RawPage) (high : List ℕ) (spare id : PageId) (rs : List Route)
    → lsn < 2 ^ 64
    → 0 < id
    → id < 2 ^ 64
    → All IsChild ((high, spare) ∷ rs)
    → total ((high, spare) ∷ rs) ≤ 4056
    → (m' : RawPage) × (make_linked p lsn (high, spare) rs id m ≡ ok tt m') × Linked p high rs id m'
make_linked-Linked p lsn m high spare id rs l pos bound h n =
    let (m1, e, x) = init_in_place-IsFreshIndex p lsn m l in
    let f = fill-Filled p ((high, spare) ∷ rs) x.valid h (omega (arith, x.space)) in
    let m2 : RawPage = linked f.valid id in
    let small = total-small ((high, spare) ∷ rs) n in
    let now : cells m2 ≡ map cell ((high, spare) ∷ rs) =
      cells-linked f.valid id ∙ f.now ∙ ap (λ cs. cs ++ map cell ((high, spare) ∷ rs)) x.no_cells in
    (
      m2,
      ground (arith, e, f.returns, set_lem f.valid id p),
      record {
        valid = linked-IsIndexPage f.valid id;
        finds = λ wanted.
            find_child_ptr-route p wanted (linked-IsIndexPage f.valid id)
            ∙ ap₂ (λ s cs. route wanted s cs m2) (sibling-linked f.valid id bound) now
            ∙ route-linked wanted id (cell (high, spare)) (map cell rs) m2 pos
            ∙ ap₂ (λ k o. ok (if lt_bytes k wanted then some id else o) m2)
                (Holds-key_of (encode-Holds high spare small.0 h.0))
                (first_above-cells wanted rs h.1 small.1);
      },
    )

module _ (wanted high : List ℕ) (child : PageId) (upper : List Route) where
  -- A key below the last of the first routes is found among them.
  child_for-below :
      (front : List Route)
      → lt_bytes wanted high ≡ true
      → child_for wanted (front ++ ((high, child) ∷ upper))
        ≡ child_for wanted (front ++ ((high, child) ∷ []))
  child_for-below [] h = ground arith
  child_for-below ((key, c) ∷ front) h = ground (arith, child_for-below front h)

  -- Any other key passes them.
  child_for-past :
      (front : List Route)
      → All (λ (r : Route). lt_bytes r.0 high ≡ true) front
      → lt_bytes wanted high ≡ false
      → child_for wanted (front ++ ((high, child) ∷ upper)) ≡ child_for wanted upper
  child_for-past [] a h = ground arith
  child_for-past ((key, c) ∷ front) a h =
      ground (arith, lt_bytes_trans wanted key high, child_for-past front a.1 h)

-- What the search on the left page gives, with the right page and all routes.
abbrev pub Splits : Profile → List ℕ → List ℕ → PageId → List Route → RawPage → RawPage → Type 0
Splits p wanted high id routes left right =
    ((lt_bytes high wanted ≡ true)
      × (find_child_ptr p wanted left ≡ ok (some id) left)
      × (find_child_ptr p wanted right ≡ ok (child_for wanted routes) right))
    ⊎ ((lt_bytes wanted high ≡ true)
        × (find_child_ptr p wanted left ≡ ok (child_for wanted routes) left))

module _ (p : Profile) (high : List ℕ) (id child : PageId) (front upper : List Route)
    {left : RawPage} (l : Linked p high (front ++ ((high, child) ∷ [])) id left)
    (below : All (λ (r : Route). lt_bytes r.0 high ≡ true) front) where
  left-Splits :
      {right : RawPage} (wanted : List ℕ)
      → wanted ≢ high
      → find_child_ptr p wanted right ≡ ok (child_for wanted upper) right
      → Splits p wanted high id (front ++ ((high, child) ∷ upper)) left right
  left-Splits {right} wanted n f = elim (Bool-cases (lt_bytes high wanted)) [
    | inl above ↦ inl (
      above,
      rw (l.finds wanted, above),
      f
          ∙ ap (λ o. ok o right)
              (sym (
                child_for-past wanted high child upper front below
                  (lt_bytes_asymm high wanted above))),
    )
    | inr not_above ↦
        let under = lt_bytes_total high wanted (λ e. n (sym e)) not_above in
        inr (
          under,
          rw (l.finds wanted, not_above)
              (ap (λ o. ok o left) (sym (child_for-below wanted high child upper front under))),
        )
  ]

  high-lost : find_child_ptr p high left ≡ ok none left
  high-lost =
      rw (l.finds high, lt_bytes_irrefl high)
        (ap (λ o. ok o left) (child_for-past high high child [] front below (lt_bytes_irrefl high)))

-- Routes that are split over two new index pages, the left one with the last of its keys, which is above
-- its others, for its high key, and linked to the page `id`: in either build the calls return, where the
-- cells fit, and both pages are well-formed. A key other than the high key is then searched
-- as on one page with all the routes: a larger one is sent to `id`, and the right page gives the child;
-- a smaller one gets the child on the left page. The high key itself gets none on the left page, neither
-- a child nor the sibling.
pub split-find :
    (p : Profile) (lsn lsn' : ℕ) (m n : RawPage) (front upper : List Route) (high wanted : List ℕ)
    (child spare id : PageId)
    → lsn < 2 ^ 64
    → lsn' < 2 ^ 64
    → 0 < id
    → id < 2 ^ 64
    → All IsChild ((high, spare) ∷ (front ++ ((high, child) ∷ [])))
    → All IsChild upper
    → total ((high, spare) ∷ (front ++ ((high, child) ∷ []))) ≤ 4056
    → total upper ≤ 4056
    → All (λ (r : Route). lt_bytes r.0 high ≡ true) front
    → wanted ≢ high
    → (left right : RawPage) × (make_linked p lsn (high, spare) (front ++ ((high, child) ∷ [])) id m
        ≡ ok tt left)
      × ((init_in_place p lsn' >> fill p upper) n ≡ ok tt right)
      × IsIndexPage left
      × IsIndexPage right
      × Splits p wanted high id (front ++ ((high, child) ∷ upper)) left right
      × (find_child_ptr p high left ≡ ok none left)
split-find p lsn lsn' m n front upper high wanted child spare id a b pos bound c d s t below ne =
    let (left, e, l) =
      make_linked-Linked p lsn m high spare id (front ++ ((high, child) ∷ [])) a pos bound c s in
    let (n1, right, e1, e2, x, f) = fill-find p lsn' n upper wanted b d t in
    (
      left,
      right,
      e,
      ground (arith, e1, e2),
      l.valid,
      x,
      left-Splits p high id child front upper l below wanted ne f,
      high-lost p high id child front upper l below,
    )
