-- ===== src/Latch/Order/Synced.antt =====
-- The reads and the writes of the data by `load` are ordered (src/buffer/page_table_latch.rs).
use ink_db.Base.{ℕ, ◌≡◌, ◌≢◌, ◌⊎◌, inl, inr, Bool-cases, refl, true, false, arith}
use ink_db.Outcome.{Profile}
use ink_db.Latch.{
  LoadResult, on_disk, loading, Latch, Pc, reading, taking, storing, owns, update, System, pick,
  Reach, here, later, IsInit, Move, see_memory, see_disk, wait, wait_wraps, wait_overflows,
  see_invalid, copy, cas_win, cas_lose, take, fail, unwind, finish, write, publish, peek_load,
  peek_copy,
}
use ink_db.Latch.Inv.{Inv}
use ink_db.Latch.Safety.{reached}
use ink_db.Latch.Order.{
  Clock, tick, Timed, begin, next, load_order, success_order, failure_order, store_order,
}

-- The order that the latch keeps.
record Synced {T : Type 0} (l : Latch T) (pc : ℕ → Pc T) (k : Clock) : Type 0 where
  reader : (i : ℕ) → pc i ≡ reading → k.knows i ≡ true
  owner : (i : ℕ) → owns (pc i) ≡ true → k.knows i ≡ true
  published : l.state ≢ loading → k.message ≡ true
  own_reads : (i j : ℕ) → owns (pc i) ≡ true → k.readers j ≡ true → j ≡ i
  unread : l.state ≡ on_disk → (j : ℕ) → k.readers j ≡ false

module _ {T : Type 0} {p : Profile} {d : T} {work : ℕ → T → LoadResult T} {l : Latch T}
    {pc : ℕ → Pc T} {k : Clock} (inv : Inv d work l pc) (x : Synced l pc k) (i : ℕ) where
  tick-reader :
      {q q' : Pc T} {l' : Latch T} (mv : Move p (work i) l q l' q')
      → pc i ≡ q
      → (j : ℕ) → update pc i q' j ≡ reading
      → (tick i mv k).knows j ≡ true
  unfolding tick load_order success_order failure_order store_order
  tick-reader (see_memory h) e j r = ground (arith, x.reader j, x.published)
  tick-reader (see_disk h) e j r = ground (arith, x.reader j)
  tick-reader (wait h _) e j r = ground (arith, x.reader j)
  tick-reader (wait_wraps h _ _) e j r = ground (arith, x.reader j)
  tick-reader (wait_overflows h _ _) e j r = ground (arith, x.reader j)
  tick-reader (see_invalid h) e j r = ground (arith, x.reader j)
  tick-reader copy e j r = ground (arith, x.reader j)
  tick-reader (cas_win h) e j r = ground (arith, x.reader j)
  tick-reader (cas_lose h) e j r = ground (arith, x.reader j)
  tick-reader take e j r = ground (arith, x.reader j)
  tick-reader (fail h) e j r = ground (arith, x.reader j)
  tick-reader (unwind h) e j r = ground (arith, x.reader j)
  tick-reader (finish h) e j r = ground (arith, x.reader j)
  tick-reader write e j r = ground (arith, x.reader j, inv.fits i, inv.fits j)
  tick-reader publish e j r = ground (arith, x.reader j)
  tick-reader peek_load e j r = ground (arith, x.reader j)
  tick-reader peek_copy e j r = ground (arith, x.reader j)

  tick-owner :
      {q q' : Pc T} {l' : Latch T} (mv : Move p (work i) l q l' q')
      → pc i ≡ q
      → (j : ℕ) → owns (update pc i q' j) ≡ true
      → (tick i mv k).knows j ≡ true
  unfolding tick load_order success_order failure_order store_order
  tick-owner (see_memory h) e j r = ground (arith, x.owner j)
  tick-owner (see_disk h) e j r = ground (arith, x.owner j)
  tick-owner (wait h _) e j r = ground (arith, x.owner j)
  tick-owner (wait_wraps h _ _) e j r = ground (arith, x.owner j)
  tick-owner (wait_overflows h _ _) e j r = ground (arith, x.owner j)
  tick-owner (see_invalid h) e j r = ground (arith, x.owner j)
  tick-owner copy e j r = ground (arith, x.owner j)
  tick-owner (cas_win h) e j r = ground (arith, x.owner j, x.published)
  tick-owner (cas_lose h) e j r = ground (arith, x.owner j)
  tick-owner take e j r = ground (arith, x.owner j)
  tick-owner (fail h) e j r = ground (arith, x.owner j)
  tick-owner (unwind h) e j r = ground (arith, x.owner j)
  tick-owner (finish h) e j r = ground (arith, x.owner j)
  tick-owner write e j r = ground (arith, x.owner j, inv.unique i j)
  tick-owner publish e j r = ground (arith, x.owner j)
  tick-owner peek_load e j r = ground (arith, x.owner j)
  tick-owner peek_copy e j r = ground (arith, x.owner j)

  tick-published :
      {q q' : Pc T} {l' : Latch T} (mv : Move p (work i) l q l' q')
      → pc i ≡ q
      → l'.state ≢ loading
      → (tick i mv k).message ≡ true
  unfolding tick load_order success_order failure_order store_order
  tick-published (see_memory h) e n = x.published n
  tick-published (cas_win h) e n = absurd (n refl)
  tick-published write e n = absurd (n (ground (arith, inv.fits i)))
  tick-published publish e n = ground (arith, x.owner i)
  tick-published _ e n = x.published n

  tick-own_reads :
      {q q' : Pc T} {l' : Latch T} (mv : Move p (work i) l q l' q')
      → pc i ≡ q
      → (a b : ℕ) → owns (update pc i q' a) ≡ true
      → (tick i mv k).readers b ≡ true
      → b ≡ a
  unfolding tick load_order success_order failure_order store_order
  tick-own_reads (see_memory h) e a b o r = ground (arith, x.own_reads a b)
  tick-own_reads copy e a b o r = ground (arith, x.own_reads a b, inv.fits i, inv.fits a)
  tick-own_reads (cas_win h) e a b o r = ground (arith, x.own_reads a b, x.unread h b)
  tick-own_reads take e a b o r = ground (arith, x.own_reads a b, inv.unique i a)
  tick-own_reads write e a b o r = absurd cc
  tick-own_reads _ e a b o r = ground (arith, x.own_reads a b)

  tick-unread :
      {q q' : Pc T} {l' : Latch T} (mv : Move p (work i) l q l' q')
      → pc i ≡ q
      → l'.state ≡ on_disk
      → (j : ℕ) → (tick i mv k).readers j ≡ false
  unfolding tick load_order success_order failure_order store_order
  tick-unread (see_memory h) e s j = x.unread s j
  tick-unread copy e s j = absurd (ground (arith, inv.fits i))
  tick-unread (cas_win h) e s j = absurd (ground arith)
  tick-unread take e s j = absurd (ground (arith, inv.fits i))
  tick-unread write e s j = refl
  tick-unread publish e s j = absurd (ground arith)
  tick-unread _ e s j = x.unread s j

-- About to read or to write the data in `load`.
abbrev pub IsAccess : {T : Type 0} → Pc T → Type 0
IsAccess {T} q = (q ≡ reading) ⊎ ((q ≡ taking) ⊎ ((v : T) × (q ≡ storing v)))

module _ {T : Type 0} {p : Profile} {d : T} {work : ℕ → T → LoadResult T} {s : System T}
    (first : IsInit d s) where
  Timed-Reach : {t : System T} {k : Clock} → Timed p work s t k → Reach p work s t
  Timed-Reach begin = here
  Timed-Reach (next i r mv) = later (Timed-Reach r) (pick i mv)

  Timed-Synced : {t : System T} {k : Clock} → Timed p work s t k → Synced t.latch t.pc k
  Timed-Synced begin = record {
    reader = λ i e. refl;
    owner = λ i e. refl;
    published = λ n. refl;
    own_reads = λ i j a b. absurd cc;
    unread = λ e j. refl;
  }
  Timed-Synced (next i r mv) =
      let inv = reached first (Timed-Reach r) in
      let x = Timed-Synced r in
      record {
        reader = tick-reader inv x i mv refl;
        owner = tick-owner inv x i mv refl;
        published = tick-published inv x i mv refl;
        own_reads = tick-own_reads inv x i mv refl;
        unread = tick-unread inv x i mv refl;
      }

  owned :
      {t : System T} {k : Clock}
      → Timed p work s t k
      → (i : ℕ) → owns (t.pc i) ≡ true
      → (k.knows i ≡ true) × ((j : ℕ) → (t.pc i ≡ reading) ⊎ ((k.readers j ≡ false) ⊎ (j ≡ i)))
  owned {k = k} r i o =
      let x = Timed-Synced r in
      (
        x.owner i o,
        λ j. elim (Bool-cases (k.readers j)) [
          | inl h ↦ inr (inr (x.own_reads i j o h))
          | inr h ↦ inr (inl h)
        ],
      )

  -- In every state that threads reach from a new latch, by the memory orders that the code gives its loads,
  -- exchanges and stores of the state: where a thread in `load` is about to read the data, on the fast path or
  -- for its closure, or to write it, the last write of the data happens before that; and where it is not on
  -- the fast path, no other call of `load` has read the data since that write.
  pub accesses_ordered :
      {t : System T} {k : Clock}
      → Timed p work s t k
      → (i : ℕ) → IsAccess (t.pc i)
      → (k.knows i ≡ true) × ((j : ℕ) → (t.pc i ≡ reading) ⊎ ((k.readers j ≡ false) ⊎ (j ≡ i)))
  accesses_ordered r i (inl e) = ((Timed-Synced r).reader i e, λ j. inl e)
  accesses_ordered r i (inr (inl e)) = owned r i (ground (arith, e))
  accesses_ordered r i (inr (inr (v, e))) = owned r i (ground (arith, e))
