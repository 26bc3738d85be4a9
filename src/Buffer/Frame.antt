-- ===== src/Buffer/Frame.antt =====
-- A page frame, src/buffer/page_frame.rs: the guards of its page, and threads that call `read` and
-- `write` on one frame. The lock is the standard library's `RwLock`: many readers or one writer at a
-- time; a writer that panics poisons it, and then `read().unwrap()` and `write().unwrap()` panic.
pub mod Inv
pub mod Serial
pub mod Poison
pub mod Pages
pub mod Nodes
pub mod Settle
pub mod Progress
use ink_db.Base.{
  ℕ, suc, ◌+◌, ◌≡◌, ◌≢◌, Bool, true, false, Option, none, some, List, [], ◌∷◌, ◌++◌, ite,
  ℕ_discrete, if◌then◌else◌,
}
use ink_db.Mem.{RawPage}
use ink_db.Page.Kind.{PageKind, uses_slotted_page_layout}

-- `PageFrameError`
pub data PageFrameError : Type 0 where
  invalid_page_kind : PageFrameError

-- `RwLock<RawPage>`: its page, whether a writer has panicked, and the thread that writes.
pub record Latch : Type 0 where
  pub page : RawPage
  pub poisoned : Bool
  pub writer : Option ℕ

-- `PageFrame`
pub record PageFrame : Type 0 where
  pub checksum : ℕ
  pub kind : PageKind
  pub dirty : Bool
  pub latch : Latch
  pub pin : ℕ

unfoldable pub new : ℕ → PageKind → RawPage → PageFrame
new checksum kind raw_page = record {
  checksum = checksum;
  kind = kind;
  dirty = false;
  latch = record { page = raw_page; poisoned = false; writer = none };
  pin = 0;
}

-- `FrameReadGuard` and `FrameWriteGuard`: the page that the guard gives access to, and the kind.
pub record Guard : Type 0 where
  pub page : RawPage
  pub kind : PageKind

-- the guard that `read_guard` and `write_guard` make once they have the lock
unfoldable pub guard : PageFrame → Guard
guard f = record { page = f.latch.page; kind = f.kind }

-- `Result<SlottedPageRef>` and `Result<SlottedPageMut>`: the view is the bytes.
pub data View : Type 0 where
  ok : RawPage → View
  err : PageFrameError → View

unfoldable pub slotted_ref : Guard → View
slotted_ref g = if uses_slotted_page_layout g.kind then ok g.page else err invalid_page_kind

unfoldable pub slotted_mut : Guard → View
slotted_mut g = if uses_slotted_page_layout g.kind then ok g.page else err invalid_page_kind

-- An access of the closure of `write` to the page, or a panic of the closure.
pub data Access : Type 0 where
  change : (RawPage → RawPage) → Access
  crash : Access

-- Where a thread stands. A reader has pages that it saw, and looks that are left.
pub data Pc : Type 0 where
  idle : Pc
  reading : (left : ℕ) (seen : List RawPage) → Pc
  writing : (rest : List Access) → Pc
  panicked : Pc

abbrev pub is_reading : Pc → Bool
is_reading (reading left seen) = true
is_reading _ = false

abbrev pub update : (ℕ → Pc) → ℕ → Pc → ℕ → Pc
update pcs i pc' j = ite (ℕ_discrete i j) pc' (pcs j)

-- `log`: the closures of the writers that have had the lock, in their order. Nothing reads it.
pub record System : Type 0 where
  pub frame : PageFrame
  pub pc : ℕ → Pc
  pub log : List (List Access)

abbrev pub locked : PageFrame → Latch → PageFrame
locked f l = record f { latch = l }

-- One step of the thread `i`: `read` takes the lock, looks and returns, or panics; `write` likewise.
pub data Step (i : ℕ) (f : PageFrame) (pc : ℕ → Pc) (log : List (List Access))
    : Pc → PageFrame → Pc → List (List Access) → Type 0 where
  read_guard :
      {n : ℕ}
      → f.latch.writer ≡ none
      → f.latch.poisoned ≡ false
      → Step i f pc log idle f (reading n []) log
  read_unwrap :
      f.latch.writer ≡ none → f.latch.poisoned ≡ true → Step i f pc log idle f panicked log
  look :
      {n : ℕ} {seen : List RawPage}
      → Step i f pc log (reading (suc n) seen) f (reading n ((guard f).page ∷ seen)) log
  read_drop : {n : ℕ} {seen : List RawPage} → Step i f pc log (reading n seen) f idle log
  read_panic : {n : ℕ} {seen : List RawPage} → Step i f pc log (reading n seen) f panicked log
  write_guard :
      {w : List Access}
      → f.latch.writer ≡ none
      → f.latch.poisoned ≡ false
      → ((j : ℕ) → is_reading (pc j) ≡ false)
      → Step i f pc log idle
          (locked f (record f.latch { writer = some i }))
          (writing w)
          (log ++ (w ∷ []))
  write_unwrap :
      f.latch.writer ≡ none
      → f.latch.poisoned ≡ true
      → ((j : ℕ) → is_reading (pc j) ≡ false)
      → Step i f pc log idle f panicked log
  write_access :
      {g : RawPage → RawPage} {rest : List Access}
      → Step i f pc log
          (writing (change g ∷ rest))
          (locked f (record f.latch { page = g f.latch.page }))
          (writing rest)
          log
  write_panic :
      {rest : List Access}
      → Step i f pc log
          (writing (crash ∷ rest))
          (locked f (record f.latch { writer = none; poisoned = true }))
          panicked
          log
  write_drop : Step i f pc log (writing []) (locked f (record f.latch { writer = none })) idle log

pub data Reach (s : System) : System → Type 0 where
  here : Reach s s
  later :
      {t : System} {f : PageFrame} {q : Pc} {log : List (List Access)} (i : ℕ)
      → Reach s t
      → Step i t.frame t.pc t.log (t.pc i) f q log
      → Reach s (record { frame = f; pc = update t.pc i q; log = log })

-- A new frame, on which no thread has called.
pub record IsInit (checksum : ℕ) (kind : PageKind) (m : RawPage) (s : System) : Type 0 where
  pub fresh : s.frame ≡ new checksum kind m
  pub begun : (i : ℕ) → s.pc i ≡ idle
  pub empty : s.log ≡ []

-- What the accesses of a closure do to a page that nothing else changes: a panic ends it.
abbrev pub run : List Access → RawPage → RawPage
run [] m = m
run (change g ∷ rest) m = run rest (g m)
run (crash ∷ rest) m = m

-- The closures one after the other.
abbrev pub run_all : List (List Access) → RawPage → RawPage
run_all [] m = m
run_all (w ∷ ws) m = run_all ws (run w m)
