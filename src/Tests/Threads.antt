-- ===== src/Tests/Threads.antt =====
-- The latch with threads that load in some order (buffer/page_table_latch.rs).
use ink_db.Base.{ℕ, ◌+◌, ◌≡◌, ◌≢◌, refl, true, false, inl, inr, arith, ite, ℕ_discrete, ◌⊎◌}
use ink_db.Outcome.{Profile, debug, release}
use ink_db.Latch.{
  LoadResult, ok, err, unwinds, loading, Pc, ready, reading, taking, returned, panicked, peek_state,
  peeked, update, new, System, pick, Reach, here, later, IsInit, see_memory, see_disk, wait, copy,
  cas_win, take, finish, write, publish, peek_load, peek_copy, fail, unwind,
}
use ink_db.Latch.Safety.{one_loader, write_alone, results_agree, peek_agrees}
use ink_db.Latch.Order.{Clock, Timed, begin as started, next}
use ink_db.Latch.Order.Synced.{accesses_ordered}
use ink_db.Latch.Race.{Races, peek-Races}
use ink_db.Latch.Alone.{Succeeds}
use ink_db.Latch.Progress.{load-returns}
use ink_db.Latch.Stall.{IsWaiting, failed_load-sticks, release-calm}
use ink_db.Latch.Spin.{Solo, begin as begun, round, Counted, waiting-panics, waiting-wraps}

-- Thread 2 peeks, the others load; the closure adds the thread's number to the data, and that of the
-- thread 7 fails.
abbrev work : ℕ → ℕ → LoadResult ℕ
work i d = ite (ℕ_discrete i 7) (err "no page") (ok (d + i))

abbrev begin : ℕ → Pc ℕ
begin i = ite (ℕ_discrete i 2) peek_state (ready 0)

abbrev first : System ℕ
first = record { latch = record { state = 0; datum = 40 }; pc = begin }

begin-IsStart : (i : ℕ) → (begin i ≡ ready 0) ⊎ (begin i ≡ peek_state)
begin-IsStart i = elim (ℕ_discrete i 2) [ yes e ↦ inr (ground arith) | no n ↦ inl (ground arith) ]

first-IsInit : IsInit 40 first
unfolding new
first-IsInit = record { unused = refl; begun = begin-IsStart }

-- Thread 1 wins the latch, loads and returns; then the thread 0 reads, and the thread 2 peeks.
loaded : (t : System ℕ) × Reach debug work first t
unfolding ℕ_discrete
loaded = (
  _,
  later
      (later
        (later
          (later
            (later
              (later
                (later
                  (later (later (later here (pick 1 (see_disk refl))) (pick 1 (cas_win refl)))
                    (pick 1 take))
                  (pick 1 (finish refl)))
                (pick 1 write))
              (pick 1 publish))
            (pick 0 (see_memory refl)))
          (pick 0 copy))
        (pick 2 peek_load))
      (pick 2 peek_copy),
)

results_agree_example :
    (◌≡◌ {A = ℕ} 41 41) × (loaded.0.latch.datum ≡ 41) × ((k : ℕ) × (work k 40 ≡ ok 41))
unfolding ℕ_discrete loaded
results_agree_example = results_agree first-IsInit loaded.1 0 1 refl refl

peek_agrees_example : (loaded.0.latch.datum ≡ 41) × ((k : ℕ) × (work k 40 ≡ ok 41))
unfolding ℕ_discrete loaded
peek_agrees_example = peek_agrees first-IsInit loaded.1 2 refl

-- Thread 1 is about to write the data, and the thread 0 waits.
loads : (t : System ℕ) × Reach release work first t
unfolding ℕ_discrete
loads = (
  _,
  later
      (later
        (later (later (later here (pick 1 (see_disk refl))) (pick 1 (cas_win refl)))
          (pick 0 (wait refl (omega arith))))
        (pick 1 take))
      (pick 1 (finish refl)),
)

one_loader_example : ◌≡◌ {A = ℕ} 1 1
unfolding ℕ_discrete loads
one_loader_example = one_loader first-IsInit loads.1 1 1 refl refl

no_reader_beside_write :
    (loads.0.pc 0 ≢ reading) × (loads.0.pc 0 ≢ taking) × (loads.0.pc 0 ≢ returned (ok 5))
unfolding ℕ_discrete loads
no_reader_beside_write = write_alone first-IsInit loads.1 1 0 refl

never_unwinds : (i d : ℕ) → work i d ≢ unwinds
never_unwinds i d = ground arith

no_panic_in_release : loads.0.pc 0 ≢ panicked
no_panic_in_release = release-calm never_unwinds first-IsInit loads.1 0

-- Thread 0, which has waited once, waits twice more.
waits_on : (p : Profile) → (t : System ℕ) × Solo p work 0 loads.0 2 t
unfolding ℕ_discrete loads
waits_on p = (_, round (round begun (wait refl (omega arith))) (wait refl (omega arith)))

waiting-panics_example :
    ((waits_on debug).0.latch ≡ loads.0.latch)
    × Counted 3 ((waits_on debug).0.pc 0)
    × ((u : System ℕ) × Solo debug work 0 loads.0 255 u × (u.pc 0 ≡ panicked))
unfolding ℕ_discrete loads
waiting-panics_example = waiting-panics work loads.0 0 1 refl refl (omega arith) (waits_on debug).1

waiting-wraps_example :
    ((waits_on release).0.latch ≡ loads.0.latch)
    × ((waits_on release).0.pc 0 ≡ ready 3)
    × ((u : System ℕ) × Solo release work 0 loads.0 1000 u)
unfolding ℕ_discrete loads
waiting-wraps_example =
    waiting-wraps work loads.0 0 1 refl refl (omega arith) 1000 (waits_on release).1

-- Thread 7 wins the latch, and its closure is about to fail; the thread 0 waits.
fails : (t : System ℕ) × Reach release work first t
unfolding ℕ_discrete
fails = (
  _,
  later
      (later (later (later here (pick 7 (see_disk refl))) (pick 7 (cas_win refl)))
        (pick 0 (wait refl (omega arith))))
      (pick 7 take),
)

-- The thread 0 waits once more after the failure.
failed :
    (u : System ℕ) × Reach release work
      (record { latch = fails.0.latch; pc = update fails.0.pc 7 (returned (err "no page")) })
      u
unfolding ℕ_discrete fails
failed = (_, later here (pick 0 (wait refl (omega arith))))

failed_load-sticks_example : (failed.0.latch.state ≡ loading) × IsWaiting (failed.0.pc 0)
unfolding ℕ_discrete fails failed
failed_load-sticks_example =
    failed_load-sticks first-IsInit fails.1 7 0 40 refl (fail refl) tt failed.1 (omega arith) tt

-- The same where the closure of thread 7 panics instead.
abbrev unwinding : ℕ → ℕ → LoadResult ℕ
unwinding i x = unwinds

unwound : (t : System ℕ) × Reach release unwinding first t
unfolding ℕ_discrete
unwound = (
  _,
  later
      (later (later (later here (pick 7 (see_disk refl))) (pick 7 (cas_win refl)))
        (pick 0 (wait refl (omega arith))))
      (pick 7 take),
)

panic_sticks :
    ((u : System ℕ)
      → Reach release unwinding
          (record { latch = unwound.0.latch; pc = update unwound.0.pc 7 panicked })
          u
      → (u.latch.state ≡ loading) × IsWaiting (u.pc 0))
unfolding ℕ_discrete unwound
panic_sticks u c =
    failed_load-sticks first-IsInit unwound.1 7 0 40 refl (unwind refl) tt c (omega arith) tt

-- A closure that never fails, and the thread 1 in it while the thread 0 waits.
abbrev always : ℕ → ℕ → LoadResult ℕ
always i x = ok (x + i)

always-Succeeds : (i : ℕ) → Succeeds (always i)
always-Succeeds i x = (x + i, refl)

held : (t : System ℕ) × Reach debug always first t
unfolding ℕ_discrete
held = (
  _,
  later (later (later here (pick 1 (see_disk refl))) (pick 1 (cas_win refl)))
      (pick 0 (wait refl (omega arith))),
)

load-returns_example :
    (u : System ℕ) × (v : ℕ) × Reach debug always held.0 u × (u.pc 0 ≡ returned (ok v))
unfolding held ℕ_discrete
load-returns_example = load-returns always-Succeeds first-IsInit held.1 0 tt

peek-Races_example :
    (t before after : System ℕ) × Reach debug work first t
    × Races 41 1 2 t
    × (Reach debug work t before × (before.pc 2 ≡ peeked loading 40))
    × (Reach debug work t after × (after.pc 2 ≡ peeked loading 41))
unfolding ℕ_discrete
peek-Races_example = peek-Races 1 2 first-IsInit (λ e. absurd (omega arith)) refl refl refl

-- Thread 1 wins the latch and runs its closure.
stored : (t : System ℕ) × (k : Clock) × Timed debug work first t k
unfolding ℕ_discrete
stored = (
  _,
  _,
  next 1 (next 1 (next 1 (next 1 started (see_disk refl)) (cas_win refl)) take)
      (finish {v = 41} refl),
)

accesses_ordered_example :
    (stored.1.knows 1 ≡ true)
    × ((j : ℕ) → (stored.0.pc 1 ≡ reading) ⊎ ((stored.1.readers j ≡ false) ⊎ (j ≡ 1)))
unfolding stored ℕ_discrete
accesses_ordered_example = accesses_ordered first-IsInit stored.2 1 (inr (inr (41, refl)))
