-- ===== src/Base/Lists.antt =====
-- Lists measured and indexed by native numbers, under the library's names.
use Prim.Native.Nat.{ℕ, zero, suc, ◌+◌, ◌≤◌, ◌<◌}
use mathlib.Core.Path.{◌≡◌, refl, ap}
use mathlib.Core.List.{List, [], ◌∷◌, ◌++◌}
use mathlib.Core.Option.{Option, none, some}
use native.Mathlib.Omega.{arith}

module _ {ℓ} {A : Type ℓ} where
  abbrev pub length : List A → ℕ
  length [] = 0
  length (x ∷ xs) = suc (length xs)

  abbrev pub get_elem? : List A → ℕ → Option A
  get_elem? [] i = none
  get_elem? (x ∷ xs) zero = some x
  get_elem? (x ∷ xs) (suc i) = get_elem? xs i

  abbrev pub get_or : List A → ℕ → A → A
  get_or [] i d = d
  get_or (x ∷ xs) zero d = x
  get_or (x ∷ xs) (suc i) d = get_or xs i d

  abbrev pub take : ℕ → List A → List A
  take zero xs = []
  take (suc n) [] = []
  take (suc n) (x ∷ xs) = x ∷ take n xs

  abbrev pub drop : ℕ → List A → List A
  drop zero xs = xs
  drop (suc n) [] = []
  drop (suc n) (x ∷ xs) = drop n xs

  abbrev pub insert_at : ℕ → A → List A → List A
  insert_at zero a xs = a ∷ xs
  insert_at (suc i) a [] = a ∷ []
  insert_at (suc i) a (x ∷ xs) = x ∷ insert_at i a xs

  pub length-append : (xs ys : List A) → length (xs ++ ys) ≡ length xs + length ys
  length-append [] ys = omega arith
  length-append (x ∷ xs) ys = omega (arith, length-append xs ys)

module _ {ℓ} {A : Type ℓ} where
  pub insert_at-length : (xs : List A) (a : A) → insert_at (length xs) a xs ≡ xs ++ (a ∷ [])
  insert_at-length [] a = refl
  insert_at-length (x ∷ xs) a = ap (λ t. x ∷ t) (insert_at-length xs a)

  pub take-append : (xs ys : List A) → take (length xs) (xs ++ ys) ≡ xs
  take-append [] ys = refl
  take-append (x ∷ xs) ys = ap (λ t. x ∷ t) (take-append xs ys)

  pub drop-append : (xs ys : List A) → drop (length xs) (xs ++ ys) ≡ ys
  drop-append [] ys = refl
  drop-append (x ∷ xs) ys = drop-append xs ys

  pub take-length : (xs : List A) → take (length xs) xs ≡ xs
  take-length [] = refl
  take-length (x ∷ xs) = ap (λ t. x ∷ t) (take-length xs)

-- The list of the first `n` values of a function.
module _ {ℓ} {A : Type ℓ} where
  abbrev pub tabulate : ℕ → (ℕ → A) → List A
  tabulate zero f = []
  tabulate (suc n) f = f 0 ∷ tabulate n (λ i. f (suc i))

  pub length-tabulate : (n : ℕ) (f : ℕ → A) → length (tabulate n f) ≡ n
  length-tabulate zero f = refl
  length-tabulate (suc n) f = ap suc (length-tabulate n (λ i. f (suc i)))

  pub get_elem?-tabulate :
      (n : ℕ) (f : ℕ → A) (i : ℕ) → i < n → get_elem? (tabulate n f) i ≡ some (f i)
  get_elem?-tabulate zero f i h = elim h [ ]
  get_elem?-tabulate (suc n) f zero h = refl
  get_elem?-tabulate (suc n) f (suc i) h = get_elem?-tabulate n (λ j. f (suc j)) i (omega arith)

  pub tabulate-cong :
      (n : ℕ) (f g : ℕ → A) → ((i : ℕ) → i < n → f i ≡ g i) → tabulate n f ≡ tabulate n g
  tabulate-cong zero f g h = refl
  tabulate-cong (suc n) f g h = λ k.
      h 0 (omega arith) k
      ∷ tabulate-cong n (λ i. f (suc i)) (λ i. g (suc i)) (λ i l. h (suc i) (omega arith)) k

  pub tabulate-suc : (n : ℕ) (f : ℕ → A) → tabulate (suc n) f ≡ tabulate n f ++ (f n ∷ [])
  tabulate-suc zero f = refl
  tabulate-suc (suc n) f = ap (λ t. f 0 ∷ t) (tabulate-suc n (λ i. f (suc i)))

  -- A list whose values are shifted by one from `k` on is an insertion at `k`.
  pub tabulate-insert_at :
      (n k : ℕ) (a : A) (f g : ℕ → A)
      → k ≤ n
      → ((i : ℕ) → i < k → g i ≡ f i)
      → g k ≡ a
      → ((i : ℕ) → k ≤ i → i < n → g (suc i) ≡ f i)
      → tabulate (suc n) g ≡ insert_at k a (tabulate n f)
  tabulate-insert_at n zero a f g h low mid high =
      λ j. mid j ∷ tabulate-cong n (λ i. g (suc i)) f (λ i l. high i (omega arith) l) j
  tabulate-insert_at zero (suc k) a f g h low mid high = elim h [ ]
  tabulate-insert_at (suc n) (suc k) a f g h low mid high = λ j.
      low 0 (omega arith) j
      ∷ tabulate-insert_at n k a (λ i. f (suc i)) (λ i. g (suc i)) (omega arith)
          (λ i l. low (suc i) (omega arith)) mid (λ i l u. high (suc i) (omega arith) (omega arith))
          j

  pub tabulate-get_or : (xs : List A) (d : A) → tabulate (length xs) (λ i. get_or xs i d) ≡ xs
  tabulate-get_or [] d = refl
  tabulate-get_or (x ∷ xs) d = ap (λ t. x ∷ t) (tabulate-get_or xs d)

-- A predicate on every member.
module _ {ℓ κ} {A : Type ℓ} (P : A → Type κ) where
  abbrev pub All : List A → Type κ
  All [] = Unit
  All (x ∷ xs) = P x × All xs

  pub All-tabulate : (n : ℕ) (f : ℕ → A) → ((i : ℕ) → i < n → P (f i)) → All (tabulate n f)
  All-tabulate zero f h = tt
  All-tabulate (suc n) f h =
      (h 0 (omega arith), All-tabulate n (λ i. f (suc i)) (λ i l. h (suc i) (omega arith)))

  pub All-at : (n : ℕ) (f : ℕ → A) → All (tabulate n f) → (i : ℕ) → i < n → P (f i)
  All-at zero f h i l = elim l [ ]
  All-at (suc n) f h zero l = h.0
  All-at (suc n) f h (suc i) l = All-at n (λ j. f (suc j)) h.1 i (omega arith)

  pub All-insert_at : (k : ℕ) (a : A) (xs : List A) → P a → All xs → All (insert_at k a xs)
  All-insert_at zero a xs h hs = (h, hs)
  All-insert_at (suc k) a [] h hs = (h, tt)
  All-insert_at (suc k) a (x ∷ xs) h hs = (hs.0, All-insert_at k a xs h hs.1)

  pub All-middle : (xs ys : List A) (b : A) → All (xs ++ (b ∷ ys)) → P b
  All-middle [] ys b h = h.0
  All-middle (x ∷ xs) ys b h = All-middle xs ys b h.1
