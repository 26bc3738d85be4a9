-- ===== src/Latch.antt =====
-- The latch of a page-table entry, src/buffer/page_table_latch.rs: threads that call `load` and `peek`
-- on one latch, a shared access at a time, interleaved in any order. Each access is one step
-- (sequential consistency); what the `Acquire` and `Release` orders of the source order is added by
-- Latch.Order. The calls `spin_loop`, `yield_now` and `sleep` only pass time, and are left out.
pub mod Inv
pub mod Moves
pub mod Safety
pub mod Stall
pub mod Spin
pub mod Alone
pub mod Progress
pub mod Race
pub mod Order
use Prim.Native.String.{String}
use ink_db.Base.{
  ℕ, ◌+◌, ◌<◌, ◌≤◌, ◌≡◌, ◌≢◌, Bool, true, false, ite, ℕ_discrete, ◌==◌, if◌then◌else◌, ◌⊎◌,
}
use ink_db.Outcome.{Profile, debug, release}

-- What a closure does: it returns a `Result<T, String>`, or unwinds in a panic. `load` returns the first two.
pub data LoadResult (T : Type 0) : Type 0 where
  unwinds : LoadResult T
  ok : T → LoadResult T
  err : String → LoadResult T

abbrev pub on_disk : ℕ
on_disk = 0

abbrev pub loading : ℕ
loading = 1

abbrev pub in_memory : ℕ
in_memory = 2

abbrev pub invalid : ℕ
invalid = 3

-- `PageTableLatch`
pub record Latch (T : Type 0) : Type 0 where
  pub state : ℕ
  pub datum : T

-- `PageTableLatch::new`
unfoldable pub new : {T : Type 0} → T → Latch T
new d = record { state = on_disk; datum = d }

-- `state()`: what the state reads as.
unfoldable pub state_of : {T : Type 0} → Latch T → ℕ
state_of l =
    if l.state == in_memory
    then in_memory
    else if l.state == loading
    then loading
    else if l.state == on_disk
    then on_disk
    else invalid

-- `current_state`
unfoldable pub current_state : {T : Type 0} → Latch T → ℕ
current_state l = l.state

-- Where a thread stands, with the locals that are live there. `spin_count` is a `u8`, as the limits
-- that it is compared with are.
pub data Pc (T : Type 0) : Type 0 where
  ready : (spin_count : ℕ) → Pc T  -- head of the loop of `load`
  reading : Pc T  -- saw the data in memory, before the clone
  trying : (spin_count : ℕ) → Pc T  -- saw the data on disk, before the compare-exchange
  taking : Pc T  -- won the compare-exchange, before the clone for `work`
  working : T → Pc T  -- in `work`
  storing : T → Pc T  -- `work` returned, before the write of the data
  publishing : T → Pc T  -- before the store of the state
  returned : LoadResult T → Pc T
  panicked : Pc T
  peek_state : Pc T  -- start of `peek`
  peek_data : (state : ℕ) → Pc T  -- before the clone of `peek`
  peeked : (state : ℕ) → T → Pc T

-- One step of one thread, whose closure is `work`.
pub data Move {T : Type 0} (p : Profile) (work : T → LoadResult T) (l : Latch T)
    : Pc T → Latch T → Pc T → Type 0 where
  see_memory : {n : ℕ} → l.state ≡ in_memory → Move p work l (ready n) l reading
  see_disk : {n : ℕ} → l.state ≡ on_disk → Move p work l (ready n) l (trying n)
  wait : {n : ℕ} → l.state ≡ loading → n < 255 → Move p work l (ready n) l (ready (n + 1))
  wait_wraps :
      {n : ℕ} → l.state ≡ loading → 255 ≤ n → p ≡ release → Move p work l (ready n) l (ready 0)
  wait_overflows :
      {n : ℕ} → l.state ≡ loading → 255 ≤ n → p ≡ debug → Move p work l (ready n) l panicked
  see_invalid :
      {n : ℕ} → invalid ≤ l.state → Move p work l (ready n) l (returned (err "Invalid state"))
  copy : Move p work l reading l (returned (ok l.datum))
  cas_win :
      {n : ℕ} → l.state ≡ on_disk → Move p work l (trying n) (record l { state = loading }) taking
  cas_lose : {n : ℕ} → l.state ≢ on_disk → Move p work l (trying n) l (ready n)
  take : Move p work l taking l (working l.datum)
  fail : {d : T} {e : String} → work d ≡ err e → Move p work l (working d) l (returned (err e))
  unwind : {d : T} → work d ≡ unwinds → Move p work l (working d) l panicked
  finish : {d v : T} → work d ≡ ok v → Move p work l (working d) l (storing v)
  write : {v : T} → Move p work l (storing v) (record l { datum = v }) (publishing v)
  publish :
      {v : T} → Move p work l (publishing v) (record l { state = in_memory }) (returned (ok v))
  peek_load : Move p work l peek_state l (peek_data l.state)
  peek_copy : {s : ℕ} → Move p work l (peek_data s) l (peeked s l.datum)

-- Between the compare-exchange that a thread won and its store of the state.
abbrev pub owns : {T : Type 0} → Pc T → Bool
owns taking = true
owns (working _) = true
owns (storing _) = true
owns (publishing _) = true
owns _ = false

abbrev pub update : {A : Type 0} → (ℕ → A) → ℕ → A → ℕ → A
update pcs i pc' j = ite (ℕ_discrete i j) pc' (pcs j)

pub record System (T : Type 0) : Type 0 where
  pub latch : Latch T
  pub pc : ℕ → Pc T

module _ {T : Type 0} (p : Profile) (work : ℕ → T → LoadResult T) where
  -- Any thread makes a step.
  pub data Step (s : System T) : System T → Type 0 where
    pick :
        (i : ℕ) {l : Latch T} {q : Pc T}
        → Move p (work i) s.latch (s.pc i) l q
        → Step s (record { latch = l; pc = update s.pc i q })

  pub data Reach (s : System T) : System T → Type 0 where
    here : Reach s s
    later : {t u : System T} → Reach s t → Step t u → Reach s u

-- A thread that has not begun.
abbrev pub IsStart : {T : Type 0} → Pc T → Type 0
IsStart q = (q ≡ ready 0) ⊎ (q ≡ peek_state)

-- A new latch, and threads that have not begun.
pub record IsInit {T : Type 0} (d : T) (s : System T) : Type 0 where
  pub unused : s.latch ≡ new d
  pub begun : (i : ℕ) → IsStart (s.pc i)
