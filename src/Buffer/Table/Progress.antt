-- ===== src/Buffer/Table/Progress.antt =====
-- How a thread that asks for a page of the table goes on (src/buffer/page_table.rs with
-- src/buffer/page_table_latch.rs).
use ink_db.Base.{ℕ, ◌≡◌, ◌≢◌, refl, sym, ◌∙◌, ap, true, some, ◌⊎◌, inl, arith, ℕ_discrete}
use mathlib.Core.Path.{subst}
use ink_db.Outcome.{Profile}
use ink_db.Page.{PageId}
use ink_db.Latch
use ink_db.Latch.{
  ok, LoadResult, on_disk, loading, in_memory, Latch, Pc, ready, returned, owns, System, Reach,
  IsInit,
}
use ink_db.Latch.Inv.{Inv}
use ink_db.Latch.Safety.{reached}
use ink_db.Latch.Alone.{Succeeds, from_owner, from_ready}
use ink_db.Latch.Progress.{Owned, Reach-Owned}
use ink_db.Buffer.Table.{PageTableResult, disk, new_entry, PageTableHandle}
use ink_db.Buffer.Table.Interface.{PageTable}
use ink_db.Buffer.Table.World.{
  Client, asking, missing, using, World, put, found, Turns, start, turn, Untouched,
}
use ink_db.Buffer.Table.Shared.{
  seen_from, at_entry, new_entry-parts, Known, Stays, Turns-Reach, Turns-Stays,
}
use ink_db.Buffer.Table.Carry.{carry}

-- A client that owns the latch of the entry `h` has that handle.
owner-using :
    (h : PageTableHandle) (c : Client)
    → owns (seen_from h c) ≡ true
    → (id : PageId) × (q : Pc PageTableResult) × (c ≡ using id h q) × (owns q ≡ true)
owner-using h (asking id) o = absurd (ground arith)
owner-using h (missing id) o = absurd (ground arith)
owner-using h (using id g q) o = (id, q, ground arith, ground arith)

start_Owned : {T : Type 0} {d : T} {s : System T} → IsInit d s → Owned s.latch s.pc
unfolding Latch.new
start_Owned h b = absurd (ground (arith, h.unused))

disk_or_memory :
    {T : Type 0} {d : T} {work : ℕ → T → LoadResult T} {l : Latch T} {pc : ℕ → Pc T}
    → Inv d work l pc
    → l.state ≢ loading
    → (l.state ≡ on_disk) ⊎ (l.state ≡ in_memory)
disk_or_memory inv n = ground (arith, inv.known, n)

-- A world in which no load of the entry runs, and a client is where it was.
record Quiet {T : Type 0} ⦃impl : PageTable T⦄ (p : Profile)
    (work : ℕ → PageTableResult → LoadResult PageTableResult) (h : PageTableHandle) (i : ℕ)
    (from w : World T) : Type 0 where
  world : World T
  run : Turns p work from world
  calm : (world.entries h).state.state ≢ loading
  same : world.clients i ≡ w.clients i

module _ {T : Type 0} ⦃impl : PageTable T⦄ {p : Profile}
    {work : ℕ → PageTableResult → LoadResult PageTableResult} where
  Turns-trans : {w u v : World T} → Turns p work w u → Turns p work u v → Turns p work w v
  Turns-trans a start = a
  Turns-trans a (turn b one) = turn (Turns-trans a b) one

  module _ (good : (i : ℕ) → Succeeds (work i)) (h : PageTableHandle) (i : ℕ) where
    -- The client that loads the entry, if there is one, can end its load first.
    quieten :
        {from : World T} (w : World T) (id : PageId) (n : ℕ)
        → Turns p work from w
        → w.clients i ≡ using id h (ready n)
        → Owned (at_entry h w).latch (at_entry h w).pc
        → Quiet p work h i from w
    quieten w id n ts e own = elim (ℕ_discrete (w.entries h).state.state loading) [
      | no calm ↦ record { world = w; run = ts; calm = calm; same = refl }
      | yes b ↦
          let (k, has) = own b in
          let (other, q, at, o) = owner-using h (w.clients k) has in
          let ret = from_owner {p = p} (good k) (w.entries h).state q o in
          let c = carry k other h w ts refl at ret.steps in
          record {
            world = c.world;
            run = c.run;
            calm = omega (arith, ap (λ l. l.state) c.entry, ret.loaded);
            same = c.clients i (λ kept. ground (arith, kept));
          }
    ]

    -- A client that begins to load goes on alone where no load runs.
    loaded :
        {from : World T} (w : World T) (id : PageId) (n : ℕ)
        → Turns p work from w
        → w.clients i ≡ using id h (ready n)
        → ((w.entries h).state.state ≡ on_disk) ⊎ ((w.entries h).state.state ≡ in_memory)
        → (v : World T) × (x : PageTableResult) × Turns p work from v
          × (v.clients i ≡ using id h (returned (ok x)))
    loaded w id n ts e s =
        let ret = from_ready {p = p} (good i) (w.entries h).state n s in
        let c = carry i id h w ts refl e ret.steps in (c.world, ret.value, c.run, c.at)

  -- In any implementation of `PageTable` that keeps its law: where a page has a new entry in the table, and
  -- threads `get` the handles of any pages and call `load` on them while handles are inserted for other
  -- pages: if no closure fails, a thread that asks for the page can get its handle and a value, whatever
  -- the others are doing: some further turns lead there.
  pub ask-returns :
      {w u : World T} (id : PageId) (h : PageTableHandle)
      → ((i : ℕ) → Succeeds (work i))
      → ((i : ℕ) → (wanted : PageId) × (w.clients i ≡ asking wanted))
      → impl.get id w.table ≡ some h
      → new_entry p id ≡ some (w.entries h)
      → (ts : Turns p work w u) → Untouched p work id ts
      → (i : ℕ) → u.clients i ≡ asking id
      → (v : World T) × (x : PageTableResult) × Turns p work u v
        × (v.clients i ≡ using id h (returned (ok x)))
  ask-returns {w} {u} id h good asks e n ts alone i a =
      let (offset, o, l) = new_entry-parts p id (w.entries h) n in
      let stays : Stays id h u =
        Turns-Stays id h ts alone (e, λ k. subst (Known id h) (sym (asks k).1) tt) in
      let first : IsInit (disk offset) (at_entry h w) = record {
        unused = l;
        begun = λ k. inl (ground (arith, (asks k).1));
      } in
      let got : World T = record u { clients = put u.clients i (using id h (ready 0)) } in
      let there : Turns p work u got = turn start (found i id h a stays.0) in
      let here : got.clients i ≡ using id h (ready 0) = ground arith in
      let own = Reach-Owned good (start_Owned first) (Turns-Reach h (Turns-trans ts there)) in
      let c = quieten good h i got id 0 there here own in
      let inv = reached first (Turns-Reach h (Turns-trans ts c.run)) in
      loaded good h i c.world id 0 c.run (c.same ∙ here) (disk_or_memory inv c.calm)
