-- ===== src/Tests/Frames.antt =====
-- A page frame with threads that read and write it (buffer/page_frame.rs).
use ink_db.Base.{ℕ, ◌≡◌, refl, true, false, List, [], ◌∷◌, ◌==◌, if◌then◌else◌, All, ℕ_discrete}
use ink_db.Mem.{RawPage}
use ink_db.Page.Kind.{heap, uses_slotted_page_layout}
use ink_db.Buffer.Frame.{
  new, guard, slotted_ref, slotted_mut, ok, err, invalid_page_kind, Access, change, crash, idle,
  System, Reach, here, later, IsInit, run_all, read_guard, read_unwrap, look, write_guard,
  write_access, write_panic, write_drop,
}
use ink_db.Buffer.Frame.Serial.{page-run_all, no_torn_read}
use ink_db.Buffer.Frame.Progress.{Served, write-Served}
use ink_db.Buffer.Frame.Poison.{IsOut, panicked_write-sticks, frame_fields}

abbrev blank : RawPage
blank i = 0

abbrev set : ℕ → ℕ → RawPage → RawPage
set at v m i = if i == at then v else m i

abbrev first : System
first = record { frame = new 10 heap blank; pc = λ i. idle; log = [] }

first-IsInit : IsInit 10 heap blank first
first-IsInit = record { fresh = refl; begun = λ i. refl; empty = refl }

-- Two bytes of the page that a writer changes one after the other.
abbrev Paired : RawPage → Type 0
Paired m = m 100 ≡ m 101

abbrev both : List Access
both = change (set 100 7) ∷ change (set 101 7) ∷ []

-- the page with both bytes written
abbrev blank_seen : RawPage
blank_seen = set 101 7 (set 100 7 blank)

-- Thread 1 writes both bytes; then the thread 2 reads.
read_after : (t : System) × Reach first t
unfolding new ℕ_discrete
read_after = (
  _,
  later 2
      (later 2
        (later 1
          (later 1
            (later 1 (later 1 here (write_guard {w = both} refl refl (λ j. refl))) write_access)
            write_access)
          write_drop)
        (read_guard {n = 3} refl refl))
      look,
)

no_torn_read_example :
    All Paired (blank_seen ∷ []) × All (λ x. x ≡ read_after.0.frame.latch.page) (blank_seen ∷ [])
unfolding read_after new guard ℕ_discrete
no_torn_read_example =
    no_torn_read Paired first-IsInit read_after.1 refl ((λ x h. refl), tt) 2 2 (blank_seen ∷ [])
      refl

page-run_all_example : read_after.0.frame.latch.page ≡ run_all (both ∷ []) blank
unfolding read_after new guard ℕ_discrete
page-run_all_example = page-run_all first-IsInit read_after.1 refl refl

frame_fields_example :
    (read_after.0.frame.dirty ≡ false)
    × (read_after.0.frame.pin ≡ 0)
    × (read_after.0.frame.checksum ≡ 10)
    × (slotted_ref (guard read_after.0.frame) ≡ (
        if uses_slotted_page_layout heap
        then ok read_after.0.frame.latch.page
        else err invalid_page_kind))
    × (slotted_mut (guard read_after.0.frame) ≡ (
        if uses_slotted_page_layout heap
        then ok read_after.0.frame.latch.page
        else err invalid_page_kind))
frame_fields_example = frame_fields first-IsInit read_after.1

-- Thread 1 panics between its two accesses.
torn : (t : System) × Reach first t
unfolding new ℕ_discrete
torn = (
  _,
  later 1
      (later 1
        (later 1 here (write_guard {w = change (set 100 7) ∷ crash ∷ []} refl refl (λ j. refl)))
        write_access)
      write_panic,
)

-- Thread 2 calls `read` after that.
after_torn : (u : System) × Reach torn.0 u
unfolding torn new ℕ_discrete
after_torn = (_, later 2 here (read_unwrap refl refl))

panicked_write-sticks_example :
    (after_torn.0.frame.latch.poisoned ≡ true)
    × (after_torn.0.frame.latch.page ≡ torn.0.frame.latch.page)
    × IsOut (after_torn.0.pc 3)
unfolding torn new ℕ_discrete
panicked_write-sticks_example = panicked_write-sticks first-IsInit torn.1 refl after_torn.1 3

-- While the thread 2 reads, the thread 3 can come to write.
write-Served_example : (u : System) × Reach read_after.0 u × Served 3 both read_after.0 u
unfolding read_after new ℕ_discrete
write-Served_example = write-Served 3 both first-IsInit read_after.1 refl
