-- ===== src/Index/Level.antt =====
-- The level and the kind of an index page (page/internal_page.rs), which share a byte.
use ink_db.Base.{ℕ, ◌≤◌, ◌<◌, ◌≡◌, ◌≢◌, refl, ap, ◌∙◌, [], ◌∷◌, arith, some}
use ink_db.Mem.{RawPage, write_bytes}
use ink_db.Outcome.{ok}
use ink_db.Page
use ink_db.Page.Kind.{PageKind, into_u8, set_subtype_page_bits, page_type, page_sub_type, page_kind}
use ink_db.Page.Kind.Laws.{page_type_fields, page_kind-low, into_u8_parts}
use ink_db.Slotted.Fields.{SameRest}
use ink_db.Slotted.Header
use ink_db.Slotted.Header.{get_page_type}
use ink_db.Index.Header.{kind, level, set_level, set_page_type}

-- The page after a write of the byte at 10.
abbrev pub typed : ℕ → RawPage → RawPage
typed t m = write_bytes m 10 (t ∷ [])

pub get_page_type-typed : (t : ℕ) (m : RawPage) → get_page_type (typed t m) ≡ t
unfolding get_page_type write_bytes
get_page_type-typed t m = refl

typed-elsewhere : (t : ℕ) (m : RawPage) (i : ℕ) → i ≢ 10 → typed t m i ≡ m i
unfolding write_bytes
typed-elsewhere t m i h = ground arith

pub typed-SameRest : (t : ℕ) (m : RawPage) → SameRest m (typed t m)
typed-SameRest t m j =
    (λ a b. typed-elsewhere t m j (omega arith), λ a. typed-elsewhere t m j (omega arith))

pub set_level_effect :
    (lvl : ℕ) (m : RawPage)
    → set_level lvl m ≡ ok tt (typed (set_subtype_page_bits (get_page_type m) lvl) m)
unfolding set_level Header.set_page_type
set_level_effect lvl m = refl

level-of : (m : RawPage) (n : ℕ) → page_sub_type (get_page_type m) ≡ n → n ≤ 15 → level m ≡ some n
unfolding level Page.index_level
level-of m n e h = ground arith

kind-of : (m : RawPage) (t : ℕ) → page_type (get_page_type m) ≡ page_type t → kind m ≡ page_kind t
unfolding kind
kind-of m t e = page_kind-low (get_page_type m) t e

-- Where the type is a byte, after `set_level` with a level up to 15 the page has that level and the kind it had, and no other byte
-- has changed.
pub level-set_level :
    (m : RawPage) (lvl i : ℕ)
    → get_page_type m < 256
    → lvl ≤ 15
    → i ≢ 10
    → (m' : RawPage) × (set_level lvl m ≡ ok tt m')
      × (level m' ≡ some lvl)
      × (kind m' ≡ kind m)
      × (m' i ≡ m i)
unfolding kind page_kind
level-set_level m lvl i h l n =
    let b : ℕ = set_subtype_page_bits (get_page_type m) lvl in
    let f = page_type_fields (get_page_type m) 0 lvl h (omega arith) (omega arith) in
    (
      typed b m,
      set_level_effect lvl m,
      level-of (typed b m) lvl (ap page_sub_type (get_page_type-typed b m) ∙ omega (arith, f)) l,
      kind-of (typed b m) (get_page_type m) (ap page_type (get_page_type-typed b m) ∙ f.4),
      typed-elsewhere b m i n,
    )

pub set_page_type_effect :
    (k : PageKind) (m : RawPage) → set_page_type k m ≡ ok tt (typed (into_u8 k) m)
unfolding set_page_type Header.set_page_type
set_page_type_effect k m = refl

-- `set_page_type` gives the page the kind, and sets its level to 0 whatever it was; no other byte
-- changes.
pub kind-set_page_type :
    (m : RawPage) (k : PageKind) (i : ℕ)
    → i ≢ 10
    → (m' : RawPage) × (set_page_type k m ≡ ok tt m')
      × (kind m' ≡ k)
      × (level m' ≡ some 0)
      × (m' i ≡ m i)
kind-set_page_type m k i n =
    let b : ℕ = into_u8 k in
    (
      typed b m,
      set_page_type_effect k m,
      kind-of (typed b m) b (ap page_type (get_page_type-typed b m)) ∙ (into_u8_parts k).0,
      level-of (typed b m) 0 (ap page_sub_type (get_page_type-typed b m) ∙ (into_u8_parts k).1)
          (omega arith),
      typed-elsewhere b m i n,
    )
