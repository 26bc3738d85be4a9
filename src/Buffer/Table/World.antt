-- ===== src/Buffer/Table/World.antt =====
-- The page table with the latches of its entries (src/buffer/page_table.rs with
-- src/buffer/page_table_latch.rs): threads that `get` the handle of a page and call `load` on its entry,
-- while handles are inserted for pages, those that have one already included. `get` and `insert` hold the
-- lock of the table.
use ink_db.Base.{ℕ, ◌≡◌, ◌≢◌, none, some, ite, ℕ_discrete}
use ink_db.Outcome.{Profile}
use ink_db.Page.{PageId}
use ink_db.Latch.{LoadResult}
use ink_db.Latch.{Latch, Pc, ready, Move}
use ink_db.Buffer.Table.{PageTableResult, PageTableEntry, PageTableHandle}
use ink_db.Buffer.Table.Interface.{PageTable}

-- A thread that wants a page, found none, or has a handle and is somewhere in `load`.
pub data Client : Type 0 where
  asking : PageId → Client
  missing : PageId → Client
  using : PageId → PageTableHandle → Pc PageTableResult → Client

-- The table is of any type that implements the trait.
pub record World (T : Type 0) : Type 0 where
  pub table : T
  pub entries : PageTableHandle → PageTableEntry
  pub clients : ℕ → Client

abbrev pub put {ℓ} : {A : Type ℓ} → (ℕ → A) → ℕ → A → ℕ → A
put at k a j = ite (ℕ_discrete k j) a (at j)

module _ {T : Type 0} ⦃impl : PageTable T⦄ (p : Profile)
    (work : ℕ → PageTableResult → LoadResult PageTableResult) where
  pub data Turn (w : World T) : World T → Type 0 where
    found :
        (i : ℕ) (id : PageId) (h : PageTableHandle)
        → w.clients i ≡ asking id
        → impl.get id w.table ≡ some h
        → Turn w (record w { clients = put w.clients i (using id h (ready 0)) })
    not_found :
        (i : ℕ) (id : PageId)
        → w.clients i ≡ asking id
        → impl.get id w.table ≡ none
        → Turn w (record w { clients = put w.clients i (missing id) })
    inserted :
        (id : PageId) (h : PageTableHandle) → Turn w (record w { table = impl.insert id h w.table })
    loads :
        (i : ℕ) (id : PageId) (h : PageTableHandle) {q q' : Pc PageTableResult}
        {l : Latch PageTableResult}
        → w.clients i ≡ using id h q
        → Move p (work i) (w.entries h).state q l q'
        → Turn w (record w {
          entries = put w.entries h (record { state = l });
          clients = put w.clients i (using id h q');
        })

  pub data Turns (w : World T) : World T → Type 0 where
    start : Turns w w
    turn : {u v : World T} → Turns w u → Turn u v → Turns w v

  -- No turn inserts the page.
  abbrev pub Untouched : PageId → {w u : World T} → Turns w u → Type 0
  Untouched id start = Unit
  Untouched id (turn ts (inserted other h)) = Untouched id ts × (other ≢ id)
  Untouched id (turn ts _) = Untouched id ts
