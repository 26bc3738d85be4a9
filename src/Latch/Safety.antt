-- ===== src/Latch/Safety.antt =====
-- What holds in every state that the threads reach from a new latch
-- (src/buffer/page_table_latch.rs).
use ink_db.Base.{ℕ, ◌≡◌, ◌≢◌, inl, inr, true, false, arith}
use ink_db.Outcome.{Profile}
use ink_db.Latch.{
  LoadResult, ok, in_memory, Latch, new, Pc, reading, taking, storing, returned, peeked, owns,
  System, Step, pick, Reach, here, later, IsInit, IsStart,
}
use ink_db.Latch.Inv.{Local, Inv}
use ink_db.Latch.Moves.{Move-Inv}

Local-start :
    {T : Type 0} (d : T) (work : T → LoadResult T) (l : Latch T) (q : Pc T)
    → IsStart q
    → Local d work l q
Local-start d work l q (inl e) = ground arith
Local-start d work l q (inr e) = ground arith

pub owns-start : {T : Type 0} (q : Pc T) → IsStart q → owns q ≡ false
owns-start q (inl e) = ground arith
owns-start q (inr e) = ground arith

Inv-init :
    {T : Type 0} {d : T} (work : ℕ → T → LoadResult T) {s : System T}
    → IsInit d s
    → Inv d work s.latch s.pc
unfolding new
Inv-init {d} work {s} h = record {
  known = ground (arith, h.unused);
  fits = λ i. Local-start d (work i) s.latch (s.pc i) (h.begun i);
  unique = λ i j a b. absurd (ground (arith, owns-start (s.pc i) (h.begun i)));
  untouched = λ e. ground (arith, h.unused);
  loaded = λ e. absurd (ground (arith, h.unused));
}

module _ {T : Type 0} {p : Profile} {d : T} {work : ℕ → T → LoadResult T} where
  Step-Inv : {s t : System T} → Step p work s t → Inv d work s.latch s.pc → Inv d work t.latch t.pc
  Step-Inv (pick i mv) inv = Move-Inv inv i mv

  pub Reach-Inv :
      {s t : System T} → Inv d work s.latch s.pc → Reach p work s t → Inv d work t.latch t.pc
  Reach-Inv inv here = inv
  Reach-Inv inv (later r st) = Step-Inv st (Reach-Inv inv r)

  pub reached : {s t : System T} → IsInit d s → Reach p work s t → Inv d work t.latch t.pc
  reached h r = Reach-Inv (Inv-init work h) r

-- In every state that threads reach from a new latch, at most one of them is between the
-- compare-exchange that it won and its store of the state.
pub one_loader :
    {T : Type 0} {p : Profile} {d : T} {work : ℕ → T → LoadResult T} {s t : System T}
    → IsInit d s
    → Reach p work s t
    → (i j : ℕ) → owns (t.pc i) ≡ true
    → owns (t.pc j) ≡ true
    → i ≡ j
one_loader h r i j a b = (reached h r).unique i j a b

-- In every state that threads reach from a new latch, while one of them is about to write the data none
-- is about to read it on the fast path of `load` or for the closure, and none has had it returned.
pub write_alone :
    {T : Type 0} {p : Profile} {d : T} {work : ℕ → T → LoadResult T} {s t : System T} {v w : T}
    → IsInit d s
    → Reach p work s t
    → (i j : ℕ) → t.pc i ≡ storing v
    → (t.pc j ≢ reading) × (t.pc j ≢ taking) × (t.pc j ≢ returned (ok w))
write_alone h r i j a =
    let inv = reached h r in
    (
      λ b. ground (arith, inv.fits i, inv.fits j),
      λ b. ground (arith, inv.unique i j),
      λ b. ground (arith, inv.fits i, inv.fits j),
    )

-- In every state that threads reach from a new latch, two calls of `load` that have returned a value
-- have returned the same one, which is the data of the latch, and which the closure of some thread made
-- of the data that the latch began with.
pub results_agree :
    {T : Type 0} {p : Profile} {d : T} {work : ℕ → T → LoadResult T} {s t : System T} {v w : T}
    → IsInit d s
    → Reach p work s t
    → (i j : ℕ) → t.pc i ≡ returned (ok v)
    → t.pc j ≡ returned (ok w)
    → (v ≡ w) × (t.latch.datum ≡ v) × ((k : ℕ) × (work k d ≡ ok v))
results_agree {t = t} {v = v} h r i j a b =
    let inv = reached h r in
    let one : (t.latch.state ≡ in_memory) × (t.latch.datum ≡ v) = ground (arith, inv.fits i) in
    let (k, made) = inv.loaded one.0 in
    (ground (arith, inv.fits i, inv.fits j), one.1, (k, ground (arith, inv.fits i)))

-- In every state that threads reach from a new latch, a `peek` that reported the data in memory has the
-- data of the latch, which the closure of some thread made of the data that the latch began with.
pub peek_agrees :
    {T : Type 0} {p : Profile} {d : T} {work : ℕ → T → LoadResult T} {s t : System T} {v : T}
    → IsInit d s
    → Reach p work s t
    → (i : ℕ) → t.pc i ≡ peeked in_memory v
    → (t.latch.datum ≡ v) × ((k : ℕ) × (work k d ≡ ok v))
peek_agrees {t = t} {v = v} h r i a =
    let inv = reached h r in
    let one : (t.latch.state ≡ in_memory) × (t.latch.datum ≡ v) = ground (arith, inv.fits i) in
    let (k, made) = inv.loaded one.0 in (one.1, (k, ground (arith, inv.fits i)))
