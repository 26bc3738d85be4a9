-- ===== src/Latch/Race.antt =====
-- `peek` beside `load` (src/buffer/page_table_latch.rs): the read of the data is not ordered with the
-- write of a thread that loads.
use ink_db.Base.{ℕ, ◌≡◌, ◌≢◌, refl, sym, ◌∙◌, arith}
use mathlib.Core.Path.{subst}
use ink_db.Outcome.{Profile}
use ink_db.Latch.{
  LoadResult, ok, new, loading, Latch, Pc, ready, storing, publishing, peek_state, peek_data,
  peeked, update, System, pick, Reach, here, later, IsInit, Move, see_disk, cas_win, take, finish,
  write, peek_load, peek_copy,
}
use ink_db.Latch.Alone.{Alone, rest, step, Lifts, lift}

-- A thread that is about to write a value to the data, and one that is about to read the data.
pub record Races {T : Type 0} (v : T) (i j : ℕ) (s : System T) : Type 0 where
  pub writer : s.pc i ≡ storing v
  pub reader : s.pc j ≡ peek_data loading

to_storing :
    {T : Type 0} {p : Profile} {work : T → LoadResult T} (d v : T)
    → work d ≡ ok v
    → Alone p work (new d) (ready 0) (record { state = loading; datum = d }) (storing v)
unfolding new
to_storing d v e = step (see_disk refl) (step (cas_win refl) (step take (step (finish e) rest)))

module _ {T : Type 0} {p : Profile} {work : ℕ → T → LoadResult T} where
  -- A step of the thread `i` at the end.
  then_step :
      {s t : System T} {q q' : Pc T} {l : Latch T} (i : ℕ)
      → Reach p work s t
      → t.pc i ≡ q
      → Move p (work i) t.latch q l q'
      → Reach p work s (record { latch = l; pc = update t.pc i q' })
  then_step i r e mv = later r (pick i (rw e mv))

  -- Of two threads that begin on a new latch, one `load` whose closure succeeds and one `peek`, the first
  -- comes to stand before the write of the data while the other stands before the read of it, having seen that a load runs.
  -- From there the `peek` may give the data that the latch began with, and it may give the closure's.
  pub peek-Races :
      {d v : T} {s : System T} (i j : ℕ)
      → IsInit d s
      → i ≢ j
      → s.pc i ≡ ready 0
      → s.pc j ≡ peek_state
      → work i d ≡ ok v
      → (t before after : System T) × Reach p work s t
        × Races v i j t
        × (Reach p work t before × (before.pc j ≡ peeked loading d))
        × (Reach p work t after × (after.pc j ≡ peeked loading v))
  peek-Races {d} {v} {s} i j first apart a b e =
      let x : Lifts p work i s (record { state = loading; datum = d }) (storing v) = lift i s.pc a (
        subst
          (λ l. Alone p (work i) l (ready 0) (record { state = loading; datum = d }) (storing v))
          (sym first.unused) (to_storing d v e)) in
      let l : Latch T = record { state = loading; datum = d } in
      let t : System T = record { latch = l; pc = update x.pc j (peek_data loading) } in
      let stored : System T = record {
        latch = record l { datum = v };
        pc = update t.pc i (publishing v);
      } in
      let wrote : Reach p work t stored = then_step i here (ground (arith, x.at)) write in
      (
        t,
        record { latch = l; pc = update t.pc j (peeked loading d) },
        record { latch = stored.latch; pc = update stored.pc j (peeked loading v) },
        then_step j x.run (x.others j apart ∙ b) peek_load,
        record { writer = ground (arith, x.at); reader = ground arith },
        (then_step j here (ground arith) peek_copy, ground arith),
        (then_step j wrote (ground arith) peek_copy, ground arith),
      )
