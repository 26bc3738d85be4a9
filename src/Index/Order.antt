-- ===== src/Index/Order.antt =====
-- The order of keys as byte strings (page/internal_page.rs, `find_child_ptr`).
use ink_db.Base.{ℕ, ◌≡◌, ◌≢◌, refl, ap₂, ℕ_discrete, List, [], ◌∷◌, true, false, arith}
use ink_db.Index.Find.{lt_bytes}

pub lt_bytes_irrefl : (x : List ℕ) → lt_bytes x x ≡ false
unfolding lt_bytes
lt_bytes_irrefl [] = refl
lt_bytes_irrefl (x ∷ xs) = ground (arith, lt_bytes_irrefl xs)

pub lt_bytes_asymm : (x y : List ℕ) → lt_bytes x y ≡ true → lt_bytes y x ≡ false
unfolding lt_bytes
lt_bytes_asymm [] [] h = refl
lt_bytes_asymm [] (y ∷ ys) h = refl
lt_bytes_asymm (x ∷ xs) [] h = absurd (ground arith)
lt_bytes_asymm (x ∷ xs) (y ∷ ys) h = ground (arith, lt_bytes_asymm xs ys)

pub lt_bytes_total : (x y : List ℕ) → x ≢ y → lt_bytes x y ≡ false → lt_bytes y x ≡ true
unfolding lt_bytes
lt_bytes_total [] [] n h = absurd (n refl)
lt_bytes_total [] (y ∷ ys) n h = absurd (ground arith)
lt_bytes_total (x ∷ xs) [] n h = refl
lt_bytes_total (x ∷ xs) (y ∷ ys) n h = elim (ℕ_discrete x y) [
  | yes e ↦ ground (arith, lt_bytes_total xs ys (λ same. n (ap₂ ◌∷◌ e same)))
  | no d ↦ ground arith
]
