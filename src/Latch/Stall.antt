-- ===== src/Latch/Stall.antt =====
-- When `load` does not return (src/buffer/page_table_latch.rs): after a closure that failed or panicked.
use ink_db.Base.{ℕ, ◌≡◌, ◌≢◌, refl, false, arith}
use ink_db.Outcome.{Profile, release}
use ink_db.Latch.{
  LoadResult, err, unwinds, loading, Latch, Pc, ready, trying, working, returned, panicked, owns,
  update, Move, fail, finish, unwind, System, Step, pick, Reach, here, later, IsInit, see_memory,
  wait_overflows, see_invalid, cas_win, publish,
}
use ink_db.Latch.Safety.{reached}

-- In the loop of `load` and without the latch, or stopped by a panic.
abbrev pub IsWaiting : {T : Type 0} → Pc T → Type 0
IsWaiting (ready _) = Unit
IsWaiting (trying _) = Unit
IsWaiting panicked = Unit
IsWaiting _ = ⊥

-- The latch says that a load runs, and no thread runs one.
pub record IsStuck {T : Type 0} (l : Latch T) (pc : ℕ → Pc T) : Type 0 where
  pub busy : l.state ≡ loading
  pub ownerless : (i : ℕ) → owns (pc i) ≡ false

module _ {T : Type 0} {p : Profile} {work : T → LoadResult T} {l : Latch T} {pc : ℕ → Pc T}
    (s : IsStuck l pc) (i : ℕ) where
  stuck-latch : {q q' : Pc T} {l' : Latch T} → Move p work l q l' q' → pc i ≡ q → l'.state ≡ loading
  stuck-latch (see_memory h) e = s.busy
  stuck-latch (cas_win h) e = refl
  stuck-latch publish e = absurd (ground (arith, s.ownerless i))
  stuck-latch _ e = s.busy

  stuck-owns :
      {q q' : Pc T} {l' : Latch T}
      → Move p work l q l' q'
      → pc i ≡ q
      → (j : ℕ) → owns (update pc i q' j) ≡ false
  stuck-owns (see_memory h) e j = ground (arith, s.ownerless j)
  stuck-owns (cas_win h) e j = absurd (ground (arith, s.busy))
  stuck-owns _ e j = ground (arith, s.ownerless i, s.ownerless j)

  stuck-waits :
      {q q' : Pc T} {l' : Latch T}
      → Move p work l q l' q'
      → pc i ≡ q
      → (j : ℕ) → IsWaiting (pc j)
      → IsWaiting (update pc i q' j)
  stuck-waits (see_memory h) e j w = absurd (ground (arith, s.busy))
  stuck-waits (see_invalid h) e j w = absurd (omega (arith, s.busy))
  stuck-waits (cas_win h) e j w = absurd (ground (arith, s.busy))
  stuck-waits _ e j w = ground arith

  Move-IsStuck :
      {q' : Pc T} {l' : Latch T} → Move p work l (pc i) l' q' → IsStuck l' (update pc i q')
  Move-IsStuck mv = record { busy = stuck-latch mv refl; ownerless = stuck-owns mv refl }

module _ {T : Type 0} {p : Profile} {work : ℕ → T → LoadResult T} where
  Reach-IsStuck :
      {s t : System T}
      → IsStuck s.latch s.pc
      → Reach p work s t
      → IsStuck t.latch t.pc × ((j : ℕ) → IsWaiting (s.pc j) → IsWaiting (t.pc j))
  Reach-IsStuck k here = (k, λ j w. w)
  Reach-IsStuck k (later r (pick i mv)) =
      let (k', kept) = Reach-IsStuck k r in
      (Move-IsStuck k' i mv, λ j w. stuck-waits k' i mv refl j (kept j w))

-- Where a thread is after its closure gave an error or panicked.
abbrev pub IsFailed : {T : Type 0} → Pc T → Type 0
IsFailed (returned (err _)) = Unit
IsFailed panicked = Unit
IsFailed _ = ⊥

fail_keeps :
    {T : Type 0} {p : Profile} {work : T → LoadResult T} {l l' : Latch T} {x : T} {q : Pc T}
    → Move p work l (working x) l' q
    → IsFailed q
    → (l' ≡ l) × (owns q ≡ false)
fail_keeps (fail h) f = (refl, refl)
fail_keeps (unwind h) f = (refl, refl)
fail_keeps (finish h) f = elim f [ ]

-- When a thread returns from `load` with the error of its closure, or panics because its closure panicked,
-- in a state that threads reach from a new latch, the latch says from then on that a load runs: another
-- thread that was in the loop of `load` then is still there in every later state, or has panicked, and
-- never returns.
pub failed_load-sticks :
    {T : Type 0} {p : Profile} {d : T} {work : ℕ → T → LoadResult T} {s t u : System T}
    {l : Latch T} {q : Pc T}
    → IsInit d s
    → Reach p work s t
    → (i j : ℕ) (x : T) → t.pc i ≡ working x
    → Move p (work i) t.latch (working x) l q
    → IsFailed q
    → Reach p work (record { latch = l; pc = update t.pc i q }) u
    → j ≢ i
    → IsWaiting (t.pc j)
    → (u.latch.state ≡ loading) × IsWaiting (u.pc j)
failed_load-sticks {t = t} {l = l} {q = q} h r i j x a mv f c ne w =
    let inv = reached h r in
    let (same, free) = fail_keeps mv f in
    let stuck : IsStuck l (update t.pc i q) = record {
      busy = ground (arith, same, inv.fits i);
      ownerless = λ n. ground (arith, inv.unique i n, free);
    } in
    let (k, kept) = Reach-IsStuck stuck c in (k.busy, kept j (ground arith))

-- The steps of one thread, one after the other.
pub prepend :
    {T : Type 0} {p : Profile} {work : ℕ → T → LoadResult T} {s t u : System T}
    → Step p work s t
    → Reach p work t u
    → Reach p work s u
prepend st here = later here st
prepend st (later r st') = later (prepend st r) st'

Move-calm :
    {T : Type 0} {p : Profile} {work : T → LoadResult T} {l l' : Latch T} {q q' : Pc T}
    → p ≡ release
    → ((d : T) → work d ≢ unwinds)
    → Move p work l q l' q'
    → q' ≢ panicked
Move-calm b good (wait_overflows h n e) = ground arith
Move-calm b good (unwind {d = d} h) = absurd (good d h)
Move-calm b good (see_memory h) = ground arith
Move-calm b good _ = ground arith

module _ {T : Type 0} {work : ℕ → T → LoadResult T}
    (good : (i : ℕ) (d : T) → work i d ≢ unwinds) where
  Step-calm :
      {s t : System T}
      → Step release work s t
      → ((i : ℕ) → s.pc i ≢ panicked)
      → (i : ℕ) → t.pc i ≢ panicked
  Step-calm (pick i mv) calm j e = ground (arith, calm j, Move-calm refl (good i) mv)

  -- In a release build, if no closure panics, no thread does, in any state that threads reach from a new latch.
  pub release-calm :
      {d : T} {s t : System T} → IsInit d s → Reach release work s t → (i : ℕ) → t.pc i ≢ panicked
  release-calm h here i e = ground (arith, h.begun i)
  release-calm h (later r st) i e = Step-calm st (release-calm h r) i e
