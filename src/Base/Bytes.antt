-- ===== src/Base/Bytes.antt =====
-- The operations on `u8` that the code uses, and their arithmetic, checked on every byte.
use Prim.Native.Nat.{bit_and, bit_or}
use ink_db.Base.{
  ℕ, zero, suc, ◌+◌, ◌-◌, ◌*◌, ◌/◌, ◌%◌, ◌<◌, ◌≡◌, refl, Bool, true, ◌&&◌, ◌==◌, ==_iff, arith,
}

-- `!x`, `x << k` (with 2 ^ k given) and `x >> k`
abbrev pub bit_not : ℕ → ℕ
bit_not x = 255 - x

abbrev pub shift_left : ℕ → ℕ → ℕ
shift_left x k = x * k % 256

abbrev pub shift_right : ℕ → ℕ → ℕ
shift_right x k = x / k

-- A test at every number below a bound.
unfoldable pub each : (ℕ → Bool) → ℕ → Bool
each test zero = true
each test (suc n) = each test n && test n

pub each-below : (test : ℕ → Bool) (n : ℕ) {k : ℕ} → k < n → each test n ≡ true → test k ≡ true
unfolding each
each-below test zero l all = absurd (omega arith)
each-below test (suc n) {k = k} l all = ground (arith, each-below test n {k = k})

low_table : each (λ x. bit_and x 0x0f == x % 16) 256 ≡ true
unfolding each
low_table = refl

pub low_bits : (x : ℕ) → x < 256 → bit_and x 0x0f ≡ x % 16
low_bits x h = (==_iff _ _).0 (each-below _ 256 h low_table)

high_table : each (λ x. bit_and x 0xf0 == x / 16 * 16) 256 ≡ true
unfolding each
high_table = refl

pub high_bits : (x : ℕ) → x < 256 → bit_and x 0xf0 ≡ x / 16 * 16
high_bits x h = (==_iff _ _).0 (each-below _ 256 h high_table)

-- A low half and a high half do not meet.
join_table : each (λ x. bit_or (x % 16) (x / 16 * 16) == x) 256 ≡ true
unfolding each
join_table = refl

pub join_bits : (lo hi : ℕ) → lo < 16 → hi < 16 → bit_or lo (hi * 16) ≡ lo + hi * 16
join_bits lo hi a b =
    let x : ℕ = lo + hi * 16 in
    let e : x % 16 ≡ lo = omega arith in
    let f : x / 16 ≡ hi = omega arith in
    rw (e, f) at ((==_iff _ _).0 (each-below _ 256 {k = x} (omega arith) join_table))

join_table' : each (λ x. bit_or (x / 16 * 16) (x % 16) == x) 256 ≡ true
unfolding each
join_table' = refl

pub join_bits' : (lo hi : ℕ) → lo < 16 → hi < 16 → bit_or (hi * 16) lo ≡ lo + hi * 16
join_bits' lo hi a b =
    let x : ℕ = lo + hi * 16 in
    let e : x % 16 ≡ lo = omega arith in
    let f : x / 16 ≡ hi = omega arith in
    rw (e, f) at ((==_iff _ _).0 (each-below _ 256 {k = x} (omega arith) join_table'))
