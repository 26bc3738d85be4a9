-- ===== src/Latch/Moves.antt =====
-- A step of a thread keeps the invariant (src/buffer/page_table_latch.rs).
use ink_db.Base.{ℕ, ◌<◌, ◌≡◌, refl, true, arith}
use ink_db.Outcome.{Profile}
use ink_db.Latch.{
  LoadResult, ok, on_disk, in_memory, invalid, Latch, Pc, owns, update, Move, see_memory, see_disk,
  wait, wait_wraps, wait_overflows, see_invalid, copy, cas_win, cas_lose, take, fail, unwind,
  finish, write, publish, peek_load, peek_copy,
}
use ink_db.Latch.Inv.{Local, Inv}

module _ {T : Type 0} {p : Profile} {d : T} {work : ℕ → T → LoadResult T} {l : Latch T}
    {pc : ℕ → Pc T} (inv : Inv d work l pc) (i : ℕ) where
  open inv use {known, fits, unique, untouched, loaded}

  Move-known :
      {q q' : Pc T} {l' : Latch T} → Move p (work i) l q l' q' → pc i ≡ q → l'.state < invalid
  Move-known (see_memory h) e = known
  Move-known _ e = ground (arith, known)

  Move-fits :
      {q q' : Pc T} {l' : Latch T}
      → Move p (work i) l q l' q'
      → pc i ≡ q
      → (j : ℕ) → Local d (work j) l' (update pc i q' j)
  Move-fits (see_memory h) e j = ground (arith, fits j)
  Move-fits (see_disk h) e j = ground (arith, fits j)
  Move-fits (wait h _) e j = ground (arith, fits j)
  Move-fits (wait_wraps h _ _) e j = ground (arith, fits j)
  Move-fits (wait_overflows h _ _) e j = ground (arith, fits j)
  Move-fits (see_invalid h) e j = ground (arith, fits j)
  Move-fits copy e j = ground (arith, fits j, fits i)
  Move-fits (cas_win h) e j = ground (arith, fits j, untouched)
  Move-fits (cas_lose h) e j = ground (arith, fits j)
  Move-fits take e j = ground (arith, fits j, fits i)
  Move-fits (fail h) e j = ground (arith, fits j, fits i)
  Move-fits (unwind h) e j = ground (arith, fits j, fits i)
  Move-fits (finish h) e j = ground (arith, fits j, fits i)
  Move-fits write e j = ground (arith, fits j, fits i, unique i j)
  Move-fits publish e j = ground (arith, fits j, fits i, unique i j)
  Move-fits peek_load e j = ground (arith, fits j, fits i)
  Move-fits peek_copy e j = ground (arith, fits j, fits i)

  Move-unique :
      {q q' : Pc T} {l' : Latch T}
      → Move p (work i) l q l' q'
      → pc i ≡ q
      → (a b : ℕ) → owns (update pc i q' a) ≡ true
      → owns (update pc i q' b) ≡ true
      → a ≡ b
  Move-unique (see_memory h) e a b x y = ground (arith, unique a b)
  Move-unique (cas_win h) e a b x y = ground (arith, fits a, fits b)
  Move-unique _ e a b x y = ground (arith, unique a b)

  Move-untouched :
      {q q' : Pc T} {l' : Latch T}
      → Move p (work i) l q l' q'
      → pc i ≡ q
      → l'.state ≡ on_disk
      → l'.datum ≡ d
  Move-untouched (see_memory h) e x = untouched x
  Move-untouched write e x = ground (arith, fits i)
  Move-untouched _ e x = ground (arith, untouched)

  Move-loaded :
      {q q' : Pc T} {l' : Latch T}
      → Move p (work i) l q l' q'
      → pc i ≡ q
      → l'.state ≡ in_memory
      → (k : ℕ) × (work k d ≡ ok l'.datum)
  Move-loaded (cas_win h) e x = absurd (omega arith)
  Move-loaded write e x = absurd (ground (arith, fits i))
  Move-loaded publish e x = (i, ground (arith, fits i))
  Move-loaded (see_memory h) e x = loaded x
  Move-loaded _ e x = loaded x

  pub Move-Inv :
      {l' : Latch T} {q' : Pc T} → Move p (work i) l (pc i) l' q' → Inv d work l' (update pc i q')
  Move-Inv mv = record {
    known = Move-known mv refl;
    fits = Move-fits mv refl;
    unique = Move-unique mv refl;
    untouched = Move-untouched mv refl;
    loaded = Move-loaded mv refl;
  }
