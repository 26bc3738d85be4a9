-- ===== src/Outcome/Raw.antt =====
-- Methods that keep the bytes of a page bytes, whatever they return: a rule for each way to build one.
use ink_db.Base.{ℕ, Bool, true, false, List}
use ink_db.Mem.{RawPage, IsRaw, IsBytes, write_le, le_bytes}
use ink_db.Mem.Laws.{write_bytes-IsRaw, move_bytes-IsRaw}
use ink_db.Mem.Words.{le_bytes-IsBytes}
use ink_db.Outcome.{
  Profile, debug, release, Fault, Outcome, ok, err, fault, pure, throw, crash, ◌>>=◌, convert,
  assert_that, debug_assert, fail_if, choose, checked, asks, within, store, store_bytes,
  move_within,
}

-- the page that is left, if the call does not fault
abbrev pub Left : {E A : Type 0} → Outcome E A → Type 0
Left (ok a m) = IsRaw m
Left (err e m) = IsRaw m
Left (fault x) = Unit

pub record Raw {E A : Type 0} (f : RawPage → Outcome E A) : Type 0 where
  pub at : (m : RawPage) → IsRaw m → Left (f m)

module _ {E A : Type 0} where
  pub pure-Raw : (a : A) → Raw {E = E} (pure a)
  pure-Raw a = record { at = λ m h. h }

  pub throw-Raw : (e : E) → Raw {A = A} (throw e)
  throw-Raw e = record { at = λ m h. h }

  pub crash-Raw : (x : Fault) → Raw {E = E} {A = A} (crash x)
  crash-Raw x = record { at = λ m h. tt }

  pub asks-Raw : (f : RawPage → A) → Raw {E = E} (asks f)
  asks-Raw f = record { at = λ m h. h }

  pub within-Raw : (b : Bool) (x : Fault) (a : RawPage → A) → Raw {E = E} (λ m. within b x (a m) m)
  within-Raw true x a = record { at = λ m h. h }
  within-Raw false x a = record { at = λ m h. tt }

  pub choose-Raw : (b : Bool) (f g : RawPage → Outcome E A) → Raw f → Raw g → Raw (choose b f g)
  choose-Raw true f g hf hg = record { at = hf.at }
  choose-Raw false f g hf hg = record { at = hg.at }

pub within_page :
    (E : Type 0) (b : Bool) (x : Fault) (m : RawPage) → IsRaw m → Left {E = E} (within b x tt m)
within_page E true x m h = h
within_page E false x m h = tt

module _ {E : Type 0} where
  pub assert_that-Raw : (b : Bool) → Raw {E = E} (assert_that b)
  assert_that-Raw true = record { at = λ m h. h }
  assert_that-Raw false = record { at = λ m h. tt }

  pub debug_assert-Raw : (p : Profile) (b : Bool) → Raw {E = E} (debug_assert p b)
  debug_assert-Raw debug b = record { at = (assert_that-Raw b).at }
  debug_assert-Raw release b = record { at = λ m h. h }

  pub fail_if-Raw : (b : Bool) (e : E) → Raw (fail_if b e)
  fail_if-Raw true e = record { at = λ m h. h }
  fail_if-Raw false e = record { at = λ m h. h }

  pub checked-Raw : (b : Bool) (p : Profile) (x y : ℕ) → Raw {E = E} (checked b p x y)
  checked-Raw true p x y = record { at = λ m h. h }
  checked-Raw false debug x y = record { at = λ m h. tt }
  checked-Raw false release x y = record { at = λ m h. h }

  pub store-Raw : (n o v : ℕ) → Raw {E = E} (store n o v)
  unfolding write_le
  store-Raw n o v = record {
    at = λ m h. within_page E _ _ _ (write_bytes-IsRaw m o (le_bytes n v) h (le_bytes-IsBytes n v));
  }

  pub store_bytes-Raw : (o : ℕ) (xs : List ℕ) → IsBytes xs → Raw {E = E} (store_bytes o xs)
  store_bytes-Raw o xs b = record { at = λ m h. within_page E _ _ _ (write_bytes-IsRaw m o xs h b) }

  pub move_within-Raw : (src dst n : ℕ) → Raw {E = E} (move_within src dst n)
  move_within-Raw src dst n = record {
    at = λ m h. within_page E _ _ _ (move_bytes-IsRaw m src dst n h);
  }

module _ {E A B : Type 0} where
  after :
      (out : Outcome E A) (k : A → RawPage → Outcome E B)
      → Left out
      → ((a : A) → Raw (k a))
      → Left {E = E} {A = B} (elim out [ ok a m ↦ k a m | err e m ↦ err e m | fault x ↦ fault x ])
  after (ok a m) k h hk = (hk a).at m h
  after (err e m) k h hk = h
  after (fault x) k h hk = tt

  pub bind-Raw :
      (f : RawPage → Outcome E A) (k : A → RawPage → Outcome E B)
      → Raw f
      → ((a : A) → Raw (k a))
      → Raw (f >>= k)
  bind-Raw f k hf hk = record { at = λ m h. after (f m) k (hf.at m h) hk }

converted-Left :
    {E E' A : Type 0} (g : E → E') (out : Outcome E A)
    → Left out
    → Left {E = E'} {A = A}
        (elim out [ ok a m ↦ ok a m | err e m ↦ err (g e) m | fault x ↦ fault x ])
converted-Left g (ok a m) h = h
converted-Left g (err e m) h = h
converted-Left g (fault x) h = tt

pub convert-Raw :
    {E E' A : Type 0} (g : E → E') (f : RawPage → Outcome E A) → Raw f → Raw (convert g f)
convert-Raw g f h = record { at = λ m r. converted-Left g (f m) (h.at m r) }

pub ruleset raw_rules = (
  pure-Raw, throw-Raw, crash-Raw, asks-Raw, choose-Raw, assert_that-Raw, debug_assert-Raw,
  fail_if-Raw, checked-Raw, store-Raw, store_bytes-Raw, move_within-Raw, bind-Raw, convert-Raw,
)
