-- ===== src/Outcome.antt =====
-- How a method of a page view ends, and the state passing that the methods share: a call takes the
-- page and gives a result with the page that it leaves, an error with the page that it leaves, or
-- a fault, after which nothing more is said of the program.
pub mod Raw
use ink_db.Base.{ℕ, ◌+◌, ◌-◌, ◌^◌, ◌%◌, List, Bool, true, false, leb, ltb, ◌&&◌, length}
use ink_db.Mem.{RawPage, page_size, read_bytes, write_bytes, move_bytes, read_le, write_le}

-- With `debug` the build checks subtractions and `debug_assert!`; with `release` it does not.
pub data Profile : Type 0 where
  debug release : Profile

-- `panicked`: a panic. `undefined`: an access through a raw pointer outside of the page (or of the
-- cell it points into). `exhausted`: the model's fuel ran out.
pub data Fault : Type 0 where
  panicked undefined exhausted : Fault

pub data Outcome (E A : Type 0) : Type 0 where
  ok : A → RawPage → Outcome E A
  err : E → RawPage → Outcome E A
  fault : Fault → Outcome E A

-- A method that may fail with an `E`.
abbrev pub Method : Type 0 → Type 0 → Type 0
Method E A = RawPage → Outcome E A

abbrev pub pure : {E A : Type 0} → A → RawPage → Outcome E A
pure a m = ok a m

-- `return Err(e)`
abbrev pub throw : {E A : Type 0} → E → RawPage → Outcome E A
throw e m = err e m

abbrev pub crash : {E A : Type 0} → Fault → RawPage → Outcome E A
crash x m = fault x

infixl 5 ◌>>=◌ ◌>>◌
abbrev pub ◌>>=◌ :
    {E A B : Type 0} → (RawPage → Outcome E A) → (A → RawPage → Outcome E B) → RawPage → Outcome E B
◌>>=◌ f k m = elim (f m) [ ok a m' ↦ k a m' | err e m' ↦ err e m' | fault x ↦ fault x ]

abbrev pub ◌>>◌ :
    {E B : Type 0}
    → (RawPage → Outcome E (Unit {0}))
    → (RawPage → Outcome E B)
    → RawPage
    → Outcome E B
f >> k = f >>= λ _. k

-- `?` across error types, by the target's `From`
abbrev pub convert : {E E' A : Type 0} → (E → E') → (RawPage → Outcome E A) → RawPage → Outcome E' A
convert g f m = elim (f m) [ ok a m' ↦ ok a m' | err e m' ↦ err (g e) m' | fault x ↦ fault x ]

-- `assert!`
abbrev pub assert_that : {E : Type 0} → Bool → RawPage → Outcome E (Unit {0})
assert_that true m = ok tt m
assert_that false m = fault panicked

-- `debug_assert!`
abbrev pub debug_assert : {E : Type 0} → Profile → Bool → RawPage → Outcome E (Unit {0})
debug_assert debug b m = assert_that b m
debug_assert release b m = ok tt m

-- `if b { return Err(e) }`
abbrev pub fail_if : {E : Type 0} → Bool → E → RawPage → Outcome E (Unit {0})
fail_if true e m = err e m
fail_if false e m = ok tt m

-- `if b { .. } else { .. }`
abbrev pub choose :
    {E A : Type 0}
    → Bool
    → (RawPage → Outcome E A)
    → (RawPage → Outcome E A)
    → RawPage
    → Outcome E A
choose true f g m = f m
choose false f g m = g m

-- An operation on `usize` whose exact value does or does not fit, and its wrapped value.
abbrev pub checked : {E : Type 0} → Bool → Profile → ℕ → ℕ → RawPage → Outcome E ℕ
checked true p exact wrapped m = ok exact m
checked false debug exact wrapped m = fault panicked
checked false release exact wrapped m = ok wrapped m

-- a difference and a sum of two `usize`
abbrev pub sub_usize : {E : Type 0} → Profile → ℕ → ℕ → RawPage → Outcome E ℕ
sub_usize p a b = checked (leb b a) p (a - b) (a + 2 ^ 64 - b)

abbrev pub add_usize : {E : Type 0} → Profile → ℕ → ℕ → RawPage → Outcome E ℕ
add_usize p a b = checked (ltb (a + b) (2 ^ 64)) p (a + b) ((a + b) % 2 ^ 64)

-- `as u16`
abbrev pub as_u16 : ℕ → ℕ
as_u16 v = v % 2 ^ 16

-- a function of the page's bytes
abbrev pub asks : {E A : Type 0} → (RawPage → A) → RawPage → Outcome E A
asks f m = ok (f m) m

-- An access whose range lies in its bounds, or not.
abbrev pub within : {E A : Type 0} → Bool → Fault → A → RawPage → Outcome E A
within true x a m = ok a m
within false x a m = fault x

-- `&self.bytes[from..to]`
abbrev pub slice : {E : Type 0} → ℕ → ℕ → RawPage → Outcome E (List ℕ)
slice from to m =
    within (leb from to && leb to page_size) panicked (read_bytes m from (to - from)) m

-- `n` bytes, read as a word through a raw pointer to offset `o`
abbrev pub load : {E : Type 0} → ℕ → ℕ → RawPage → Outcome E ℕ
load n o m = within (leb (o + n) page_size) undefined (read_le n m o) m

-- a word written through a raw pointer to offset `o`
abbrev pub store : {E : Type 0} → ℕ → ℕ → ℕ → RawPage → Outcome E (Unit {0})
store n o v m = within (leb (o + n) page_size) undefined tt (write_le n m o v)

-- `ptr::copy_nonoverlapping` of a slice to offset `o`
abbrev pub store_bytes : {E : Type 0} → ℕ → List ℕ → RawPage → Outcome E (Unit {0})
store_bytes o xs m = within (leb (o + length xs) page_size) undefined tt (write_bytes m o xs)

-- `ptr::copy` of `n` bytes within the page
abbrev pub move_within : {E : Type 0} → ℕ → ℕ → ℕ → RawPage → Outcome E (Unit {0})
move_within src dst n m =
    within (leb (src + n) page_size && leb (dst + n) page_size) undefined tt
      (move_bytes m src dst n)
