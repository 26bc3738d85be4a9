-- ===== src/Tests/Tables.antt =====
-- The page table, and the level and kind of an index page, at concrete inputs
-- (buffer/page_table.rs, page/internal_page.rs).
use ink_db.Base.{ℕ, ◌+◌, ◌-◌, ◌^◌, ◌≡◌, refl, arith, ℕ_discrete, none, some, List, [], ◌∷◌}
use ink_db.Mem.{RawPage}
use ink_db.Outcome
use ink_db.Outcome.{debug, release}
use ink_db.Page.{to_offset}
use ink_db.Page.Kind.{index_leaf}
use ink_db.Slotted.Header.{get_page_type}
use ink_db.Index.Header.{level, kind, set_level, set_page_type}
use ink_db.Index.Level.{level-set_level, kind-set_page_type}
use ink_db.Latch
use ink_db.Latch.{
  LoadResult, ok, returned, see_memory, see_disk, copy, cas_win, take, finish, write, publish,
}
use ink_db.Buffer.Table.{
  PageTableResult, disk, memory, PageTableEntry, PageTableHandle, new_entry, get, insert, lookup,
  NaiveMappingTable, replace, new,
}
use ink_db.Buffer.Table.View.{view, view-insert_all}
use ink_db.Buffer.Table.World.{World, asking, using, Turns, start, turn, found, inserted, loads}
use ink_db.Buffer.Table.Interface.{naive}
use ink_db.Buffer.Table.Shared.{get-load-agree}
use ink_db.Buffer.Table.Progress.{ask-returns}
use ink_db.Buffer.Table.Twice.{get-load-twice}
use ink_db.Buffer.Table.Laws.{
  IsMap, insert_all, last_for, get-insert_all, new_entry-injective, new_entry-wraps,
}

-- A page of the type byte 0x22.
abbrev page : RawPage
page i = 0x22

page-type : get_page_type page ≡ 0x22
unfolding get_page_type
page-type = refl

level_after_set :
    (m' : RawPage) × (set_level 5 page ≡ Outcome.ok tt m')
    × (level m' ≡ some 5)
    × (kind m' ≡ kind page)
    × (m' 11 ≡ page 11)
level_after_set = level-set_level page 5 11 (omega (arith, page-type)) (omega arith) (omega arith)

retyped :
    (m' : RawPage) × (set_page_type index_leaf page ≡ Outcome.ok tt m')
    × (kind m' ≡ index_leaf)
    × (level m' ≡ some 0)
    × (m' 11 ≡ page 11)
retyped = kind-set_page_type page index_leaf 11 (omega arith)

-- The page 4 is given a handle, the page 5 another, and the page 4 a new one.
abbrev calls : List (ℕ × PageTableHandle)
calls = (4, 100) ∷ (5, 200) ∷ (4, 300) ∷ []

get-insert_all_example :
    IsMap (insert_all calls new) × (get 4 (insert_all calls new) ≡ last_for 4 calls none)
get-insert_all_example = get-insert_all calls 4

abbrev entry : PageTableEntry
entry = record { state = Latch.new (disk 8192) }

entry-two : new_entry debug 2 ≡ some entry
unfolding new_entry to_offset
entry-two = refl

same_page : ◌≡◌ {A = ℕ} 2 2
same_page = new_entry-injective 2 2 entry entry-two entry-two

new_entry-wraps_example :
    (new_entry debug (2 ^ 52 + 3) ≡ none)
    × (new_entry release (2 ^ 52 + 3) ≡ new_entry release (2 ^ 52 + 3 - 2 ^ 52))
new_entry-wraps_example = new_entry-wraps (2 ^ 52 + 3) (omega arith) (omega arith)

-- The table with the page 2 behind the handle 7, whose entry is new.
abbrev mapped : World NaiveMappingTable
mapped = record { table = insert 2 7 new; entries = λ h. entry; clients = λ i. asking 2 }

abbrev loaded : PageTableResult
loaded = memory 9

abbrev loads_it : ℕ → PageTableResult → LoadResult PageTableResult
loads_it i d = ok loaded

-- Client 1 loads the page, another page gets a handle twice, and the client 2 finds the page in memory.
after_two : (u : World NaiveMappingTable) × Turns debug loads_it mapped u
unfolding new get insert lookup replace ℕ_discrete Latch.new
after_two = (
  _,
  turn
      (turn
        (turn
          (turn
            (turn
              (turn
                (turn
                  (turn
                    (turn
                      (turn
                        (turn (turn start (found 1 2 7 refl refl))
                          (loads 1 2 7 refl (see_disk refl)))
                        (loads 1 2 7 refl (cas_win refl)))
                      (loads 1 2 7 refl take))
                    (loads 1 2 7 refl (finish {v = loaded} refl)))
                  (loads 1 2 7 refl write))
                (loads 1 2 7 refl publish))
              (inserted 5 3))
            (inserted 5 4))
          (found 2 2 7 refl refl))
        (loads 2 2 7 refl (see_memory refl)))
      (loads 2 2 7 refl copy),
)

get-load-agree_example :
    (loaded ≡ loaded)
    × ((offset k : ℕ) × (to_offset debug 2 ≡ some offset) × (loads_it k (disk offset) ≡ ok loaded))
unfolding after_two new get insert lookup replace ℕ_discrete Latch.new new_entry to_offset
get-load-agree_example =
    get-load-agree 2 7 7 7 (λ i. (2, refl)) refl refl after_two.1
      (((tt, λ e. absurd (omega arith)), λ e. absurd (omega arith))) 1 2 refl refl

-- The closure of a thread that puts the page in a frame of its own.
abbrev loads_own : ℕ → PageTableResult → LoadResult PageTableResult
loads_own i d = ok (memory i)

get-load-twice_example :
    (u : World NaiveMappingTable) × Turns debug loads_own mapped u
    × (u.clients 3 ≡ using 2 7 (returned (ok (memory 3))))
    × (u.clients 4 ≡ using 2 8 (returned (ok (memory 4))))
unfolding new get insert lookup replace ℕ_discrete Latch.new new_entry to_offset
get-load-twice_example =
    get-load-twice mapped 2 7 8 3 4 8192 (memory 3) (memory 4) refl refl refl
      (λ e. absurd (omega arith)) refl refl (λ e. absurd (omega arith)) refl refl refl

-- Both sides hold: the two sequences give every page one handle.
one_view :
    view (insert_all ((1, 7) ∷ (2, 8) ∷ (1, 9) ∷ []) new)
    ≡ view (insert_all ((1, 9) ∷ (2, 8) ∷ []) new)
one_view =
    (view-insert_all ((1, 7) ∷ (2, 8) ∷ (1, 9) ∷ []) ((1, 9) ∷ (2, 8) ∷ [])).1 λ id. ground arith

-- After the load by client 1, client 3 asks.
ask-returns_example :
    (v : World NaiveMappingTable) × (x : PageTableResult) × Turns debug loads_it after_two.0 v
    × (v.clients 3 ≡ using 2 7 (returned (ok x)))
unfolding after_two new get insert lookup replace ℕ_discrete Latch.new new_entry to_offset
ask-returns_example =
    ask-returns 2 7 (λ i d. (loaded, refl)) (λ i. (2, refl)) refl refl after_two.1
      (((tt, λ e. absurd (omega arith)), λ e. absurd (omega arith))) 3 refl
