-- ===== src/Buffer/Table/Twice.antt =====
-- What `insert` does to a page that has a handle already (src/buffer/page_table.rs with
-- src/buffer/page_table_latch.rs): the old handle stays with the threads that got it.
use ink_db.Base.{ℕ, ◌≡◌, ◌≢◌, refl, sym, ap, ◌∙◌, some, arith}
use ink_db.Outcome.{Profile}
use ink_db.Page.{PageId, to_offset}
use ink_db.Latch
use ink_db.Latch.{
  ok, LoadResult, in_memory, Latch, Pc, ready, returned, Move, see_disk, cas_win, take, finish,
  write, publish,
}
use ink_db.Latch.Alone.{Alone, rest, step}
use ink_db.Buffer.Table.{
  PageTableResult, disk, new_entry, PageTableHandle, NaiveMappingTable, get, insert,
}
use ink_db.Buffer.Table.Interface.{naive}
use ink_db.Buffer.Table.Laws.{lookup-replace}
use ink_db.Buffer.Table.Shared.{new_entry-parts}
use ink_db.Buffer.Table.Carry.{carry}
use ink_db.Buffer.Table.World.{asking, using, World, put, found, inserted, Turns, start, turn}

-- The call of `load` of a thread that runs alone on a new latch.
loads-Alone :
    {T : Type 0} {p : Profile} {work : T → LoadResult T} (d v : T)
    → work d ≡ ok v
    → Alone p work
        (Latch.new d)
        (ready 0)
        (record { state = in_memory; datum = v })
        (returned (ok v))
unfolding Latch.new
loads-Alone d v e =
    step (see_disk refl)
      (step (cas_win refl) (step take (step (finish e) (step write (step publish rest)))))

get-insert :
    (id : PageId) (h : PageTableHandle) (t : NaiveMappingTable) → get id (insert id h t) ≡ some h
unfolding get insert
get-insert id h t = ground (arith, lookup-replace id id h t.entries)

module _ {p : Profile} {work : ℕ → PageTableResult → LoadResult PageTableResult} where
  -- Where two clients ask for a page that has a new entry, and another handle has an entry that is as new:
  -- some steps, in which the second handle is inserted for the page between their calls of `get`, lead to
  -- where both have loaded the page, each through its own handle and with what its own closure made, if
  -- the closures succeed.
  pub get-load-twice :
      (w : World NaiveMappingTable) (id : PageId) (h g : PageTableHandle) (i j offset : ℕ)
      (v x : PageTableResult)
      → get id w.table ≡ some h
      → new_entry p id ≡ some (w.entries h)
      → new_entry p id ≡ some (w.entries g)
      → h ≢ g
      → w.clients i ≡ asking id
      → w.clients j ≡ asking id
      → i ≢ j
      → to_offset p id ≡ some offset
      → work i (disk offset) ≡ ok v
      → work j (disk offset) ≡ ok x
      → (u : World NaiveMappingTable) × Turns p work w u
        × (u.clients i ≡ using id h (returned (ok v)))
        × (u.clients j ≡ using id g (returned (ok x)))
  get-load-twice w id h g i j offset v x e n m hg a b ij o y z =
      let old : (w.entries h).state ≡ Latch.new (disk offset) =
        (let (at, there, l) = new_entry-parts p id (w.entries h) n in ground arith) in
      let young : (w.entries g).state ≡ Latch.new (disk offset) =
        (let (at, there, l) = new_entry-parts p id (w.entries g) m in ground arith) in
      let got : World NaiveMappingTable = record w {
        clients = put w.clients i (using id h (ready 0));
      } in
      let his =
        carry i id h got (turn start (found i id h a e)) old (ground arith)
          (loads-Alone (disk offset) v y) in
      let again : World NaiveMappingTable = record his.world {
        table = insert id g his.world.table;
      } in
      let asks : again.clients j ≡ asking id = his.clients j ij ∙ ground arith in
      let hers =
        carry j id g (record again { clients = put again.clients j (using id g (ready 0)) })
          (turn (turn his.run (inserted id g))
            (found j id g asks (get-insert id g his.world.table)))
          (ap (λ c. c.state) (his.entries g hg) ∙ young) (ground arith)
          (loads-Alone (disk offset) x z) in
      (hers.world, hers.run, hers.clients i (λ same. ij (sym same)) ∙ ground arith, hers.at)
