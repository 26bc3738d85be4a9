-- ===== src/Latch/Order.antt =====
-- The memory orders of the latch (src/buffer/page_table_latch.rs): which accesses of the data happen
-- before which, by the orders that the code gives its accesses of the state.
pub mod Synced
use ink_db.Base.{ℕ, Bool, true, false, ◌==◌, ◌&&◌, ◌||◌, ite, ℕ_discrete, if◌then◌else◌}
use ink_db.Outcome.{Profile}
use ink_db.Latch.{
  LoadResult, Latch, Pc, update, System, Move, see_memory, see_disk, wait, wait_wraps,
  wait_overflows, see_invalid, copy, cas_win, cas_lose, take, fail, unwind, finish, write, publish,
  peek_load, peek_copy,
}

-- `Ordering`
pub data Ordering : Type 0 where
  relaxed acquire release acq_rel : Ordering

abbrev pub acquires : Ordering → Bool
acquires acquire = true
acquires acq_rel = true
acquires _ = false

abbrev pub releases : Ordering → Bool
releases release = true
releases acq_rel = true
releases _ = false

-- the orders of the load of the state, of the compare-exchange that succeeds and that fails, and of the
-- store of the state
unfoldable pub load_order : Ordering
load_order = acquire

unfoldable pub success_order : Ordering
success_order = acq_rel

unfoldable pub failure_order : Ordering
failure_order = acquire

unfoldable pub store_order : Ordering
store_order = release

-- `knows`: the threads that the last write of the data happens before. `message`: whether it happens
-- before what a thread does that acquires the state as it is now. `readers`: the threads whose calls of
-- `load` have read the data since that write.
pub record Clock : Type 0 where
  pub knows : ℕ → Bool
  pub message : Bool
  pub readers : ℕ → Bool

-- The data was written before the latch was shared.
abbrev pub shared : Clock
shared = record { knows = λ i. true; message = true; readers = λ i. false }

abbrev pub mark : ℕ → Bool → (ℕ → Bool) → ℕ → Bool
mark i b f j = ite (ℕ_discrete i j) b (f j)

-- The thread `i` loads the state.
abbrev pub loads : Ordering → ℕ → Clock → Clock
loads o i k = record k { knows = mark i (k.knows i || (acquires o && k.message)) k.knows }

-- It exchanges the state, which goes on with the releases that the state had.
abbrev pub exchanges : Ordering → ℕ → Clock → Clock
exchanges o i k =
    let k' = loads o i k in record k' { message = k.message || (releases o && k'.knows i) }

abbrev pub stores : Ordering → ℕ → Clock → Clock
stores o i k = record k { message = releases o && k.knows i }

abbrev pub reads : ℕ → Clock → Clock
reads i k = record k { readers = mark i true k.readers }

abbrev pub writes : ℕ → Clock → Clock
writes i k = record { knows = λ j. i == j; message = false; readers = λ j. false }

-- What a step of the thread `i` does to the order. The reads of `peek` are not counted.
unfoldable pub tick :
    {T : Type 0} {p : Profile} {work : T → LoadResult T} {l l' : Latch T} {q q' : Pc T}
    → ℕ
    → Move p work l q l' q'
    → Clock
    → Clock
unfolding load_order success_order failure_order store_order
tick i (see_memory h) k = loads load_order i k
tick i (see_disk h) k = loads load_order i k
tick i (wait h n) k = loads load_order i k
tick i (wait_wraps h n e) k = loads load_order i k
tick i (wait_overflows h n e) k = loads load_order i k
tick i (see_invalid h) k = loads load_order i k
tick i copy k = reads i k
tick i (cas_win h) k = exchanges success_order i k
tick i (cas_lose h) k = loads failure_order i k
tick i take k = reads i k
tick i (fail h) k = k
tick i (unwind h) k = k
tick i (finish h) k = k
tick i write k = writes i k
tick i publish k = stores store_order i k
tick i peek_load k = loads load_order i k
tick i peek_copy k = k

module _ {T : Type 0} (p : Profile) (work : ℕ → T → LoadResult T) where
  -- The states that threads reach from a new latch, with the order.
  pub data Timed (s : System T) : System T → Clock → Type 0 where
    begin : Timed s s shared
    next :
        {t : System T} {k : Clock} {l : Latch T} {q : Pc T} (i : ℕ)
        → Timed s t k
        → (mv : Move p (work i) t.latch (t.pc i) l q)
        → Timed s (record { latch = l; pc = update t.pc i q }) (tick i mv k)
