-- ===== src/Index/Cell/Laws.antt =====
-- A cell that `IndexCellOwned::new` makes gives back its key and its child.
use ink_db.Base.{
  ℕ, ◌+◌, ◌^◌, ◌≤◌, ◌<◌, ◌≡◌, ap, ◌∙◌, List, length, arith, some, take, drop, take-length,
}
use ink_db.Mem.{RawPage}
use ink_db.Mem.Words.{le_value-le_bytes}
use ink_db.Outcome.{Profile, debug, release, ok, as_u16}
use ink_db.Page.{PageId}
use ink_db.Index.Cell.{encode, key_length, new, from, get_key, get_value_ptr}

-- A cell whose key lies inside it, and its key.
abbrev pub IsCell : List ℕ → Type 0
IsCell c = (10 ≤ length c) × (10 + key_length c ≤ length c)

abbrev pub key_of : List ℕ → List ℕ
key_of c = take (key_length c) (drop 10 c)

pub get_key_lem :
    (p : Profile) (c : List ℕ) (m : RawPage) → IsCell c → get_key p c m ≡ ok (key_of c) m
unfolding get_key
get_key_lem debug c m h = ground arith
get_key_lem release c m h = ground arith

-- What a cell holds.
pub record Holds (key : List ℕ) (child : PageId) (c : List ℕ) : Type 0 where
  pub size : length c ≡ 10 + length key
  pub key_size : key_length c ≡ length key
  pub key_kept : take (length key) (drop 10 c) ≡ key
  pub child_kept : get_value_ptr c ≡ child

pub encode-Holds :
    (key : List ℕ) (child : PageId)
    → length key < 4058
    → child < 2 ^ 64
    → Holds key child (encode key child)
unfolding get_value_ptr
encode-Holds key child h k = record {
  size = omega arith;
  key_size = le_value-le_bytes 2 (as_u16 (length key)) (omega arith) ∙ omega arith;
  key_kept = take-length key;
  child_kept = le_value-le_bytes 8 child k;
}

pub Holds-IsCell : {key : List ℕ} {child : PageId} {c : List ℕ} → Holds key child c → IsCell c
Holds-IsCell h = omega (arith, h.size, h.key_size)

pub Holds-key_of : {key : List ℕ} {child : PageId} {c : List ℕ} → Holds key child c → key_of c ≡ key
Holds-key_of {c} h = ap (λ n. take n (drop 10 c)) h.key_size ∙ h.key_kept

from_lem : (c : List ℕ) (m : RawPage) → IsCell c → from c m ≡ ok c m
unfolding from
from_lem c m h = ground arith

-- On a key of fewer than 4058 bytes and a child that fits 64 bits `IndexCellOwned::new` makes a cell that `IndexCell::from` takes,
-- from which `get_key` reads the key, in either build, and `get_value_ptr` the child.
pub new_round_trip :
    (p : Profile) (key : List ℕ) (child : PageId) (m : RawPage)
    → child < 2 ^ 64
    → length key < 4058
    → (c : List ℕ) × (new key child ≡ some c)
      × (from c m ≡ ok c m)
      × (get_key p c m ≡ ok key m)
      × (get_value_ptr c ≡ child)
unfolding new
new_round_trip p key child m h l =
    made (encode key child) (ground arith) (encode-Holds key child l h)
  where
    made :
        (c : List ℕ)
        → new key child ≡ some c
        → Holds key child c
        → (d : List ℕ) × (new key child ≡ some d)
          × (from d m ≡ ok d m)
          × (get_key p d m ≡ ok key m)
          × (get_value_ptr d ≡ child)
    made c e x = (
      c,
      e,
      from_lem c m (Holds-IsCell x),
      get_key_lem p c m (Holds-IsCell x) ∙ ap (λ k. ok k m) (Holds-key_of x),
      x.child_kept,
    )
