-- ===== src/Buffer/Table/Carry.antt =====
-- A client of a page table that goes on alone in `load` (src/buffer/page_table.rs with
-- src/buffer/page_table_latch.rs).
use ink_db.Base.{ℕ, ◌≡◌, ◌≢◌, refl, sym, ◌∙◌, arith}
use mathlib.Core.Path.{subst}
use ink_db.Outcome.{Profile}
use ink_db.Page.{PageId}
use ink_db.Latch.{LoadResult, Latch, Pc, Move}
use ink_db.Latch.Alone.{Alone, rest, step}
use ink_db.Buffer.Table.{PageTableResult, PageTableHandle}
use ink_db.Buffer.Table.Interface.{PageTable}
use ink_db.Buffer.Table.World.{using, World, put, loads, Turns, turn}

-- A world that a client reaches by its steps in `load` alone, which change its own entry only.
pub record Carried {T : Type 0} ⦃impl : PageTable T⦄ (p : Profile)
    (work : ℕ → PageTableResult → LoadResult PageTableResult) (i : ℕ) (id : PageId)
    (h : PageTableHandle) (from w : World T) (l : Latch PageTableResult) (q : Pc PageTableResult)
    : Type 0 where
  pub world : World T
  pub run : Turns p work from world
  pub at : world.clients i ≡ using id h q
  pub table : world.table ≡ w.table
  pub entry : (world.entries h).state ≡ l
  pub entries : (k : PageTableHandle) → h ≢ k → world.entries k ≡ w.entries k
  pub clients : (k : ℕ) → i ≢ k → world.clients k ≡ w.clients k

module _ {T : Type 0} ⦃impl : PageTable T⦄ {p : Profile}
    {work : ℕ → PageTableResult → LoadResult PageTableResult} (i : ℕ) (id : PageId)
    (h : PageTableHandle) where
  pub carry :
      {from : World T} {l l' : Latch PageTableResult} {q q' : Pc PageTableResult} (w : World T)
      → Turns p work from w
      → (w.entries h).state ≡ l
      → w.clients i ≡ using id h q
      → Alone p (work i) l q l' q'
      → Carried p work i id h from w l' q'
  carry w ts e a rest = record {
    world = w;
    run = ts;
    at = a;
    table = refl;
    entry = e;
    entries = λ k n. refl;
    clients = λ k n. refl;
  }
  carry {q = q} w ts e a (step {l1 = l1} {q1 = q1} mv more) =
      let moved : World T = record w {
        entries = put w.entries h (record { state = l1 });
        clients = put w.clients i (using id h q1);
      } in
      let mv' : Move p (work i) (w.entries h).state q l1 q1 =
        subst (λ x. Move p (work i) x q l1 q1) (sym e) mv in
      let next = carry moved (turn ts (loads i id h a mv')) (ground arith) (ground arith) more in
      record {
        world = next.world;
        run = next.run;
        at = next.at;
        table = next.table;
        entry = next.entry;
        entries = λ k n. next.entries k n ∙ ground arith;
        clients = λ k n. next.clients k n ∙ ground arith;
      }
