-- ===== src/Buffer/Table/Shared.antt =====
-- What the threads that load a page through the page table get (src/buffer/page_table.rs with
-- src/buffer/page_table_latch.rs).
use ink_db.Base.{
  Option-cases, inl, inr, ℕ, ◌≡◌, ◌≢◌, refl, sym, ap, ap₂, fun_ext, ◌==◌, some, ℕ_discrete,
  if◌then◌else◌, arith,
}
use mathlib.Core.Path.{subst}
use ink_db.Outcome.{Profile}
use ink_db.Page.{PageId, to_offset}
use ink_db.Latch
use ink_db.Latch.{ok, LoadResult}
use ink_db.Latch.{Latch, Pc, ready, returned, Move, System, Step, pick, Reach, here, later, IsInit}
use ink_db.Latch.Safety.{results_agree}
use ink_db.Buffer.Table.{PageTableResult, disk, PageTableEntry, new_entry, PageTableHandle}
use ink_db.Buffer.Table.Interface.{PageTable, naive}
use ink_db.Buffer.Table.World.{
  Client, asking, missing, using, World, put, Turn, found, not_found, inserted, loads, Turns, start,
  turn, Untouched,
}

-- What a client is to the latch of the entry `h`: it has not begun, unless it has that handle.
abbrev pub seen_from : PageTableHandle → Client → Pc PageTableResult
seen_from h (using id g q) = if g == h then q else ready 0
seen_from h _ = ready 0

-- The system of one latch in the world.
abbrev pub at_entry : {T : Type 0} → PageTableHandle → World T → System PageTableResult
at_entry h w = record { latch = (w.entries h).state; pc = λ i. seen_from h (w.clients i) }

module _ {T : Type 0} ⦃impl : PageTable T⦄ {p : Profile}
    {work : ℕ → PageTableResult → LoadResult PageTableResult} (h : PageTableHandle) where
  -- A turn that the latch does not see.
  same_system :
      {s : System PageTableResult} (w w' : World T)
      → Reach p work s (at_entry h w)
      → (w'.entries h).state ≡ (w.entries h).state
      → ((j : ℕ) → seen_from h (w'.clients j) ≡ seen_from h (w.clients j))
      → Reach p work s (at_entry h w')
  same_system {s} w w' r e f =
      subst (Reach p work s)
        (ap₂ (λ l pc. record { latch = l; pc = pc }) (sym e) (fun_ext (λ j. sym (f j)))) r

  -- A step of a client of `h` is a step of its latch.
  own-Step :
      (w : World T) (i : ℕ) (id : PageId) (g : PageTableHandle) {q q' : Pc PageTableResult}
      {l : Latch PageTableResult}
      → g ≡ h
      → w.clients i ≡ using id g q
      → Move p (work i) (w.entries g).state q l q'
      → Step p work (at_entry h w) (
          at_entry h (record w {
            entries = put w.entries g (record { state = l });
            clients = put w.clients i (using id g q');
          }))
  own-Step w i id g {q = q} {q' = q'} {l = l} same e mv =
      let there : (w.entries g).state ≡ (w.entries h).state = ap (λ k. (w.entries k).state) same in
      let place : q ≡ seen_from h (w.clients i) = ground arith in
      subst (Step p work (at_entry h w))
        (ap₂ (λ x pc. record { latch = x; pc = pc }) (ground arith) (fun_ext (λ j. ground arith)))
        (pick i (
          subst (λ x. Move p (work i) (w.entries h).state x l q') place
            (subst (λ x. Move p (work i) x q l q') there mv)))

  Turn-Reach :
      {s : System PageTableResult} {w w' : World T}
      → Reach p work s (at_entry h w)
      → Turn p work w w'
      → Reach p work s (at_entry h w')
  Turn-Reach {w = w} {w' = w'} r (found i id g e f) = same_system w w' r refl (λ j. ground arith)
  Turn-Reach {w = w} {w' = w'} r (not_found i id e f) = same_system w w' r refl (λ j. ground arith)
  Turn-Reach {w = w} {w' = w'} r (inserted id g) = same_system w w' r refl (λ j. refl)
  Turn-Reach {w = w} r (loads i id g {q' = q'} {l = l} e mv) = elim (ℕ_discrete g h) [
    | yes same ↦ later r (own-Step w i id g same e mv)
    | no other ↦
        same_system w
          (record w {
            entries = put w.entries g (record { state = l });
            clients = put w.clients i (using id g q');
          })
          r (ground arith) (λ j. ground arith)
  ]

  pub Turns-Reach :
      {w w' : World T} → Turns p work w w' → Reach p work (at_entry h w) (at_entry h w')
  Turns-Reach start = here
  Turns-Reach (turn ts one) = Turn-Reach (Turns-Reach ts) one

pub new_entry-parts :
    (p : Profile) (id : PageId) (e : PageTableEntry)
    → new_entry p id ≡ some e
    → (offset : ℕ) × (to_offset p id ≡ some offset) × (e.state ≡ Latch.new (disk offset))
unfolding new_entry
new_entry-parts p id e h = elim (Option-cases (to_offset p id)) [
  | inl none_yet ↦ absurd (ground arith)
  | inr (offset, o) ↦ (offset, o, ground arith)
]

-- A client that has a handle for the page `id` has the handle `h`.
abbrev pub Known : PageId → PageTableHandle → Client → Type 0
Known id h (using k g q) = k ≡ id → g ≡ h
Known id h _ = Unit

Known-put :
    (id : PageId) (h : PageTableHandle) (clients : ℕ → Client) (i : ℕ) (c : Client)
    → ((k : ℕ) → Known id h (clients k))
    → Known id h c
    → (j : ℕ) → Known id h (put clients i c j)
Known-put id h clients i c all one j = elim (ℕ_discrete i j) [
  | yes e ↦ ground (arith, one)
  | no e ↦ ground (arith, all j)
]

module _ {T : Type 0} ⦃impl : PageTable T⦄ (id : PageId) (h : PageTableHandle) where
  get-insert_other :
      (other : PageId) (g : PageTableHandle) (t : T)
      → other ≢ id
      → impl.get id (impl.insert other g t) ≡ impl.get id t
  get-insert_other other g t n = ground (arith, impl.get-insert other id g t)

  -- The table still has the handle for the page, and the clients have no other one for it.
  abbrev pub Stays : World T → Type 0
  Stays w = (impl.get id w.table ≡ some h) × ((i : ℕ) → Known id h (w.clients i))

  pub Turns-Stays :
      {p : Profile} {work : ℕ → PageTableResult → LoadResult PageTableResult} {w u : World T}
      (ts : Turns p work w u)
      → Untouched p work id ts
      → Stays w
      → Stays u
  Turns-Stays start none_yet stays = stays
  Turns-Stays (turn {u = u} ts (found i other g a b)) rest stays =
      let (e, known) = Turns-Stays ts rest stays in
      (e, Known-put id h u.clients i (using other g (ready 0)) known (λ same. ground arith))
  Turns-Stays (turn {u = u} ts (not_found i other a b)) rest stays =
      let (e, known) = Turns-Stays ts rest stays in
      (e, Known-put id h u.clients i (missing other) known tt)
  Turns-Stays (turn {u = u} ts (inserted other g)) (rest, n) stays =
      let (e, known) = Turns-Stays ts rest stays in
      (rw (get-insert_other other g u.table n) e, known)
  Turns-Stays (turn {u = u} ts (loads i other g {q' = q'} a mv)) rest stays =
      let (e, known) = Turns-Stays ts rest stays in
      let his : Known id h (using other g q') = subst (Known id h) a (known i) in
      (e, Known-put id h u.clients i (using other g q') known his)

module _ {T : Type 0} ⦃impl : PageTable T⦄ {p : Profile}
    {work : ℕ → PageTableResult → LoadResult PageTableResult} where
  -- In any implementation of `PageTable` that keeps its law: where a page has a new entry in the table,
  -- and threads `get` the handles of any pages and call `load` on them while handles are inserted for
  -- other pages, also for those that have one: all that load this page get the same result, which the
  -- closure of one of them made of the page's offset on disk.
  pub get-load-agree :
      {w u : World T} {v x : PageTableResult} (id : PageId) (h g g' : PageTableHandle)
      → ((i : ℕ) → (wanted : PageId) × (w.clients i ≡ asking wanted))
      → impl.get id w.table ≡ some h
      → new_entry p id ≡ some (w.entries h)
      → (ts : Turns p work w u) → Untouched p work id ts
      → (i j : ℕ) → u.clients i ≡ using id g (returned (ok v))
      → u.clients j ≡ using id g' (returned (ok x))
      → (v ≡ x) × ((offset k : ℕ) × (to_offset p id ≡ some offset) × (work k (disk offset) ≡ ok v))
  get-load-agree {w} {u} {v} {x} id h g g' asks e n ts alone i j a b =
      let (offset, o, l) = new_entry-parts p id (w.entries h) n in
      let (there, known) =
        Turns-Stays id h ts alone (e, λ k. subst (Known id h) (sym (asks k).1) tt) in
      let first : IsInit (disk offset) (at_entry h w) = record {
        unused = l;
        begun = λ k. inl (ground (arith, (asks k).1));
      } in
      let his : g ≡ h = subst (Known id h) a (known i) refl in
      let hers : g' ≡ h = subst (Known id h) b (known j) refl in
      let agree =
        results_agree {v = v} {w = x} first (Turns-Reach h ts) i j (ground (arith, his))
          (ground (arith, hers)) in
      (agree.0, (offset, agree.2.0, o, agree.2.1))
