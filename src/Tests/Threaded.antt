-- ===== src/Tests/Threaded.antt =====
-- The tests of the code that start threads, on the model: `test_naive_map` of buffer/page_table.rs and
-- `page_latch_thread_benches` of buffer/page_table_latch.rs, for any number of threads in any order. Of what
-- they print only the results of `load` are kept; the sleeps and the measured times are left out.
use ink_db.Base.{◌*◌, ℕ, ◌≡◌, refl, some, if◌then◌else◌, ◌==◌, arith, inl}
use ink_db.Outcome.{Profile, debug, release}
use ink_db.Page.{PageId, to_offset}
use ink_db.Latch
use ink_db.Latch.{
  LoadResult, ok, on_disk, in_memory, Latch, Pc, ready, returned, System, Reach, IsInit,
}
use ink_db.Latch.Safety.{results_agree}
use ink_db.Buffer.Table.{
  PageTableResult, disk, memory, PageTableEntry, PageTableHandle, NaiveMappingTable, new, new_entry,
  get, insert, lookup, replace,
}
use ink_db.Buffer.Table.Interface.{naive}
use ink_db.Buffer.Table.World.{asking, using, World, Turns, Untouched}
use ink_db.Buffer.Table.Shared.{get-load-agree}

abbrev entry_id_1 : PageId
entry_id_1 = 1234

abbrev entry_id_2 : PageId
entry_id_2 = 5678

-- the entries that `PageTableEntry::new` makes of the two, at the handles 1 and 2
abbrev made : PageTableHandle → PageTableEntry
made h =
    if h == 1
    then record { state = Latch.new (disk (1234 * 4096)) }
    else record { state = Latch.new (disk (5678 * 4096)) }

-- The table of `test_naive_map`, whose threads all ask for the first page.
abbrev naive_map : World NaiveMappingTable
naive_map = record {
  table = insert entry_id_2 2 (insert entry_id_1 1 new);
  entries = made;
  clients = λ i. asking entry_id_1;
}

-- what a thread's closure makes of the data
abbrev naive_map_load : ℕ → PageTableResult → LoadResult PageTableResult
naive_map_load i d = ok (memory entry_id_1)

made_lem :
    (p : Profile)
    → (new_entry p entry_id_1 ≡ some (made 1)) × (new_entry p entry_id_2 ≡ some (made 2))
unfolding new_entry to_offset Latch.new
made_lem debug = (refl, refl)
made_lem release = (refl, refl)

-- Each thread that gets a result has the page in memory.
naive_map_results :
    {p : Profile} {u : World NaiveMappingTable} {v : PageTableResult} (g : PageTableHandle)
    (ts : Turns p naive_map_load naive_map u)
    → Untouched p naive_map_load entry_id_1 ts
    → (i : ℕ) → u.clients i ≡ using entry_id_1 g (returned (ok v))
    → v ≡ memory entry_id_1
unfolding new get insert lookup replace
naive_map_results {p} {u} {v} g ts alone i e =
    let (same, (offset, k, o, loaded)) =
      get-load-agree entry_id_1 1 g g (λ j. (entry_id_1, refl)) refl (made_lem p).0 ts alone i i e
        e in
    ground arith

-- The latch of `page_latch_thread_benches` when a round begins, and its threads.
abbrev benched : System ℕ
benched = record { latch = record { state = on_disk; datum = 10 }; pc = λ i. ready 0 }

abbrev bench_load : ℕ → ℕ → LoadResult ℕ
bench_load i d = ok 10

-- Each thread that gets a result has the data.
bench_results :
    {p : Profile} {t : System ℕ} {v : ℕ} (i : ℕ)
    → Reach p bench_load benched t
    → t.pc i ≡ returned (ok v)
    → v ≡ 10
unfolding Latch.new
bench_results {v = v} i r e =
    let first : IsInit 10 benched = record { unused = refl; begun = λ j. inl refl } in
    let (same, now, (k, loaded)) = results_agree {v = v} {w = v} first r i i e e in ground arith
