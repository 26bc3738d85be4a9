-- ===== src/Page/Kind/Laws.antt =====
-- What the byte of a `PageType` holds (src/page/mod.rs).
use ink_db.Base.{ℕ, ◌+◌, ◌*◌, ◌/◌, ◌%◌, ◌<◌, ◌≡◌, refl, ◌∙◌, ap, none, some, arith}
use ink_db.Base.Bytes.{low_bits, high_bits, join_bits, join_bits'}
use ink_db.Page.Kind.{
  PageKind, undefined, heap, discriminant, into_u8, from_u8, new, page_type, page_kind,
  page_sub_type, set_page_type, set_subtype_page_bits,
}

-- The byte as a number: the kind's bits below, the subtype's above.
pub new-eq : (pt pst : ℕ) → pt < 256 → pst < 256 → new pt pst ≡ pt % 16 + pst % 16 * 16
unfolding new
new-eq pt pst h k =
    rw (low_bits pt h, low_bits pst k)
      (let e : pst % 16 * 16 % 256 ≡ pst % 16 * 16 = omega arith in
        rw e (join_bits (pt % 16) (pst % 16) (omega arith) (omega arith)))

pub page_type-eq : (t : ℕ) → t < 256 → page_type t ≡ t % 16
unfolding page_type
page_type-eq t h = low_bits t h

pub page_sub_type-eq : (t : ℕ) → t < 256 → page_sub_type t ≡ t / 16
unfolding page_sub_type
page_sub_type-eq t h = omega (arith, high_bits t h)

pub set_page_type-eq : (t pt : ℕ) → t < 256 → pt < 256 → set_page_type t pt ≡ pt % 16 + t / 16 * 16
unfolding set_page_type
set_page_type-eq t pt h k =
    rw (high_bits t h, low_bits pt k) (join_bits' (pt % 16) (t / 16) (omega arith) (omega arith))

pub set_subtype-eq :
    (t pst : ℕ) → t < 256 → pst < 256 → set_subtype_page_bits t pst ≡ t % 16 + pst % 16 * 16
unfolding set_subtype_page_bits
set_subtype-eq t pst h k =
    rw (low_bits t h, low_bits pst k)
      (let e : pst % 16 * 16 % 256 ≡ pst % 16 * 16 = omega arith in
        rw e (join_bits (t % 16) (pst % 16) (omega arith) (omega arith)))

ruleset bytes = (arith, new-eq, page_type-eq, page_sub_type-eq, set_page_type-eq, set_subtype-eq)

-- For bytes, the two fields of a new byte are the low halves of what it was given, and a setter changes its own
-- field, to the low half of its argument, and leaves the other.
pub page_type_fields :
    (t pt pst : ℕ)
    → t < 256
    → pt < 256
    → pst < 256
    → (page_type (new pt pst) ≡ pt % 16)
      × (page_sub_type (new pt pst) ≡ pst % 16)
      × (page_type (set_page_type t pt) ≡ pt % 16)
      × (page_sub_type (set_page_type t pt) ≡ page_sub_type t)
      × (page_type (set_subtype_page_bits t pst) ≡ page_type t)
      × (page_sub_type (set_subtype_page_bits t pst) ≡ pst % 16)
page_type_fields t pt pst a b c = omega bytes

pub page_kind-low : (t u : ℕ) → page_type t ≡ page_type u → page_kind t ≡ page_kind u
unfolding page_kind
page_kind-low t u e = ap (λ n. elim (from_u8 n) [ some k ↦ k | none ↦ undefined ]) e

discriminant_fits : (k : PageKind) → (discriminant k < 256) × (page_kind (discriminant k % 16) ≡ k)
unfolding discriminant page_kind
discriminant_fits heap = (omega arith, refl)
discriminant_fits _ = (omega arith, refl)

pub into_u8_fits : (k : PageKind) → (into_u8 k < 256) × (page_kind (into_u8 k % 16) ≡ k)
unfolding into_u8 page_kind
into_u8_fits heap = (omega arith, refl)
into_u8_fits _ = (omega arith, refl)

from_u8-into_u8 : (k : PageKind) → from_u8 (into_u8 k) ≡ some k
unfolding into_u8 from_u8
from_u8-into_u8 heap = refl
from_u8-into_u8 _ = refl

pub into_u8_parts : (k : PageKind) → (page_kind (into_u8 k) ≡ k) × (page_sub_type (into_u8 k) ≡ 0)
unfolding into_u8 page_kind page_sub_type
into_u8_parts heap = (refl, refl)
into_u8_parts _ = (refl, refl)

-- A kind comes back from its byte by either conversion, with any byte for a subtype beside it.
pub page_kind-new :
    (k : PageKind) (pst : ℕ)
    → pst < 256
    → (page_kind (new (discriminant k) pst) ≡ k)
      × (page_kind (new (into_u8 k) pst) ≡ k)
      × (from_u8 (into_u8 k) ≡ some k)
page_kind-new k pst h = (
  kind-new (discriminant k) k (discriminant_fits k),
  kind-new (into_u8 k) k (into_u8_fits k),
  from_u8-into_u8 k,
)
  where
    kind-new :
        (b : ℕ) (k' : PageKind) → (b < 256) × (page_kind (b % 16) ≡ k') → page_kind (new b pst) ≡ k'
    kind-new b k' f = page_kind-low (new b pst) (b % 16) (omega bytes) ∙ f.1
