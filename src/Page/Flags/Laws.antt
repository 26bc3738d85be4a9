-- ===== src/Page/Flags/Laws.antt =====
-- Setting, clearing, testing and listing the flags of a page (src/page/mod.rs).
use ink_db.Base.{
  ℕ, ◌<◌, ◌≡◌, refl, Bool, true, false, not, ◌&&◌, ◌||◌, none, some, List, [], ◌∷◌, ◌++◌, arith,
  if◌then◌else◌, suc, ◌+◌,
}
use ink_db.Base.Bytes.{each, each-below}
use ink_db.Page.Flags.{
  PageStates, no_state, fast_parent, deleted, half_deleted, incomplete_split, has_overflow, bit,
  from_u8, new, set_flag, clear_flag, has_flag, extract_all_flags, push_all, push_if, push_all,
  push_if,
}

-- A test of two states, and of two Booleans.
abbrev pub same_state : PageStates → PageStates → Bool
same_state no_state no_state = true
same_state fast_parent fast_parent = true
same_state deleted deleted = true
same_state half_deleted half_deleted = true
same_state incomplete_split incomplete_split = true
same_state has_overflow has_overflow = true
same_state _ _ = false

abbrev same_bool : Bool → Bool → Bool
same_bool true b = b
same_bool false b = not b

same_bool-eq : (a b : Bool) → same_bool a b ≡ true → a ≡ b
same_bool-eq true true h = refl
same_bool-eq true false h = ground arith
same_bool-eq false true h = ground arith
same_bool-eq false false h = refl

-- How often a state is listed.
abbrev pub listed : PageStates → List PageStates → ℕ
listed s [] = 0
listed s (t ∷ ts) = if same_state s t then suc (listed s ts) else listed s ts

-- the states that have a bit
abbrev pub proper : PageStates → Bool
proper no_state = false
proper _ = true

abbrev set_test : PageStates → PageStates → ℕ → Bool
set_test s t f =
    same_bool (has_flag (set_flag f s) t) ((proper s && same_state s t) || has_flag f t)

abbrev clear_test : PageStates → PageStates → ℕ → Bool
clear_test s t f = same_bool (has_flag (clear_flag f s) t) (not (same_state s t) && has_flag f t)

-- Checking every state.
every : (PageStates → Bool) → Bool
every p =
    p no_state
    && p fast_parent
    && p deleted
    && p half_deleted
    && p incomplete_split
    && p has_overflow

every_sound : (p : PageStates → Bool) → every p ≡ true → (s : PageStates) → p s ≡ true
unfolding every
every_sound p h no_state = ground arith
every_sound p h _ = ground arith

table_sound :
    (test : PageStates → PageStates → ℕ → Bool)
    → every (λ s. every (λ t. each (test s t) 256)) ≡ true
    → (s t : PageStates) (f : ℕ) → f < 256
    → test s t f ≡ true
table_sound test h s t f l = each-below (test s t) 256 l (
    every_sound (λ t. each (test s t) 256) (every_sound (λ s. every (λ t. each (test s t) 256)) h s)
      t)

set_table : every (λ s. every (λ t. each (set_test s t) 256)) ≡ true
unfolding every each set_flag has_flag
set_table = refl

clear_table : every (λ s. every (λ t. each (clear_test s t) 256)) ≡ true
unfolding every each clear_flag has_flag
clear_table = refl

-- In a byte of flags, after `set_flag s` a flag is there if it is that of a state `s` with a bit, or was there before;
-- after `clear_flag s`, if it is not that of `s` and was there before.
pub has_flag-set_clear :
    (f : ℕ) (s t : PageStates)
    → f < 256
    → (has_flag (set_flag f s) t ≡ ((proper s && same_state s t) || has_flag f t))
      × (has_flag (clear_flag f s) t ≡ (not (same_state s t) && has_flag f t))
has_flag-set_clear f s t h = (
  same_bool-eq _ _ (table_sound set_test set_table s t f h),
  same_bool-eq _ _ (table_sound clear_test clear_table s t f h),
)

-- Each state but `no_state` comes back from its bit, and is the only flag of the byte that `new`
-- makes of it.
pub from_u8-bit :
    (s t : PageStates)
    → (from_u8 (bit s) ≡ (if proper s then some s else none))
      × (has_flag (new s) t ≡ (proper s && same_state s t))
unfolding from_u8 bit has_flag new
from_u8-bit s t = ground arith

abbrev pub one_if : Bool → ℕ
one_if true = 1
one_if false = 0

listed-append-one :
    (s t : PageStates) (xs : List PageStates)
    → listed s (xs ++ (t ∷ [])) ≡ listed s xs + one_if (same_state s t)
listed-append-one s t [] = ground arith
listed-append-one s t (x ∷ xs) = ground (arith, listed-append-one s t xs)

listed-push_if :
    (s : PageStates) (b : Bool) (t : PageStates) (xs : List PageStates)
    → listed s (push_if b t xs) ≡ listed s xs + one_if (b && same_state s t)
listed-push_if s true t xs = listed-append-one s t xs
listed-push_if s false t xs = omega arith

listed-push_all :
    (a b c d e : Bool)
    → let l = push_all a b c d e in
      (listed fast_parent l ≡ one_if a)
      × (listed incomplete_split l ≡ one_if d)
      × (listed has_overflow l ≡ one_if e)
      × (listed half_deleted l ≡ 0)
      × (listed deleted l ≡ one_if b + one_if c)
unfolding push_all
listed-push_all a b c d e = simp listed-push_if (ground arith)

-- The list of all flags has `fast_parent`, `incomplete_split` and `has_overflow` once each where they
-- are set; it never has `half_deleted`, and has `deleted` once for each of the two.
pub listed-extract_all_flags :
    (f : ℕ)
    → (listed fast_parent (extract_all_flags f) ≡ one_if (has_flag f fast_parent))
      × (listed incomplete_split (extract_all_flags f) ≡ one_if (has_flag f incomplete_split))
      × (listed has_overflow (extract_all_flags f) ≡ one_if (has_flag f has_overflow))
      × (listed half_deleted (extract_all_flags f) ≡ 0)
      × (listed deleted (extract_all_flags f)
          ≡ one_if (has_flag f deleted) + one_if (has_flag f half_deleted))
unfolding extract_all_flags
listed-extract_all_flags f =
    listed-push_all (has_flag f fast_parent) (has_flag f deleted) (has_flag f half_deleted)
      (has_flag f incomplete_split) (has_flag f has_overflow)
