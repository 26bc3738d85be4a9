-- ===== src/Index/Sorted.antt =====
-- The search for a child on a page whose keys ascend (page/internal_page.rs, `find_child_ptr`).
use ink_db.Base.{
  ℕ, zero, suc, ◌≡◌, refl, ap, ◌∙◌, List, [], ◌∷◌, ◌++◌, true, false, arith, All, All-middle, none,
  some, if◌then◌else◌,
}
use ink_db.Mem.{RawPage}
use ink_db.Outcome.{Profile, ok}
use ink_db.Page.{PageId}
use ink_db.Slotted.Layout.{cells}
use ink_db.Index.Cell.{get_value_ptr}
use ink_db.Index.Cell.Laws.{key_of}
use ink_db.Index.Find.{lt_bytes, find_child_ptr}
use ink_db.Index.Layout.{IsIndexPage, sibling}
use ink_db.Index.Route.{first_above, route, find_child_ptr-route}

-- The order of keys is transitive.
pub lt_bytes_trans :
    (x y z : List ℕ) → lt_bytes x y ≡ true → lt_bytes y z ≡ true → lt_bytes x z ≡ true
unfolding lt_bytes
lt_bytes_trans [] [] z h k = absurd (ground arith)
lt_bytes_trans [] (y ∷ ys) [] h k = k
lt_bytes_trans [] (y ∷ ys) (z ∷ zs) h k = refl
lt_bytes_trans (x ∷ xs) [] z h k = absurd (ground arith)
lt_bytes_trans (x ∷ xs) (y ∷ ys) [] h k = k
lt_bytes_trans (x ∷ xs) (y ∷ ys) (z ∷ zs) h k = ground (arith, lt_bytes_trans xs ys zs)

-- The keys of the cells ascend.
abbrev pub Ascends : List (List ℕ) → Type 0
Ascends [] = Unit
Ascends (c ∷ cs) = All (λ d. lt_bytes (key_of c) (key_of d) ≡ true) cs × Ascends cs

-- The cells that lead to children: all, or all but the high key of a page with a right sibling.
abbrev pub children : PageId → List (List ℕ) → List (List ℕ)
children zero cs = cs
children (suc s) [] = []
children (suc s) (h ∷ cs) = cs

-- The key is not above the high key, if there is one.
abbrev pub StaysOn : List ℕ → PageId → List (List ℕ) → Type 0
StaysOn key (suc s) (h ∷ cs) = lt_bytes (key_of h) key ≡ false
StaysOn key _ cs = Unit

module _ (key : List ℕ) where
  -- A key that is not below a cell's is not below the keys of the cells before it.
  passes :
      (xs ys : List (List ℕ)) (b : List ℕ)
      → Ascends (xs ++ (b ∷ ys))
      → lt_bytes key (key_of b) ≡ false
      → first_above key (xs ++ (b ∷ ys)) ≡ first_above key ys
  unfolding first_above
  passes [] ys b a h = ground arith
  passes (x ∷ xs) ys b a h = ground (
    arith,
    lt_bytes_trans key (key_of x) (key_of b),
    All-middle (λ d. lt_bytes (key_of x) (key_of d) ≡ true) xs ys b a.0,
    passes xs ys b a.1 h,
  )

  children-route :
      (s : PageId) (cs : List (List ℕ)) (m : RawPage) (d : List ℕ) (ds xs : List (List ℕ))
      → children s cs ≡ xs ++ (d ∷ ds)
      → StaysOn key s cs
      → route key s cs m ≡ ok (first_above key (children s cs)) m
  unfolding route
  children-route zero cs m d ds xs e h = refl
  children-route (suc s) [] m d ds [] e h = absurd cc
  children-route (suc s) [] m d ds (x ∷ xs) e h = absurd cc
  children-route (suc s) (c ∷ cs) m d ds xs e h = ground arith

module _ (p : Profile) (key : List ℕ) {m : RawPage} (x : IsIndexPage m) where
  to_children :
      (xs ys : List (List ℕ)) (b : List ℕ)
      → children (sibling m) (cells m) ≡ xs ++ (b ∷ ys)
      → Ascends (children (sibling m) (cells m))
      → StaysOn key (sibling m) (cells m)
      → lt_bytes key (key_of b) ≡ false
      → find_child_ptr p key m ≡ ok (first_above key ys) m
  to_children xs ys b e a s h =
      find_child_ptr-route p key x
      ∙ children-route key (sibling m) (cells m) m b ys xs e s
      ∙ ap (λ cs. ok (first_above key cs) m) e
      ∙ ap (λ o. ok o m) (passes key xs ys b (rw e at a) h)

  -- On a well-formed index page whose cells to children have ascending keys, in either build, a key that
  -- is not above the high key, not below the key of one of these cells and below that of the next goes to
  -- the child of the next.
  pub find_child_ptr-between :
      (xs ys : List (List ℕ)) (b c : List ℕ)
      → children (sibling m) (cells m) ≡ xs ++ (b ∷ c ∷ ys)
      → Ascends (children (sibling m) (cells m))
      → StaysOn key (sibling m) (cells m)
      → lt_bytes key (key_of b) ≡ false
      → lt_bytes key (key_of c) ≡ true
      → find_child_ptr p key m ≡ ok (some (get_value_ptr c)) m
  unfolding first_above
  find_child_ptr-between xs ys b c e a s h l =
      to_children xs (c ∷ ys) b e a s h
      ∙ ap (λ t. ok (if t then some (get_value_ptr c) else first_above key ys) m) l

  -- On such a page a key that is not above the high key and not below the key of the last cell has no
  -- child, so also the high key itself where it is the last cell's.
  pub find_child_ptr-last :
      (xs : List (List ℕ)) (b : List ℕ)
      → children (sibling m) (cells m) ≡ xs ++ (b ∷ [])
      → Ascends (children (sibling m) (cells m))
      → StaysOn key (sibling m) (cells m)
      → lt_bytes key (key_of b) ≡ false
      → find_child_ptr p key m ≡ ok none m
  unfolding first_above
  find_child_ptr-last xs b e a s h = to_children xs [] b e a s h
