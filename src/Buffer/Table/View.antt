-- ===== src/Buffer/Table/View.antt =====
-- The naive table as a map (src/buffer/page_table.rs): what is left of it when the order of its pairs is
-- forgotten, as that of a hash map is.
use ink_db.Base.{◌≡◌, ◌∙◌, sym, ap, ◌↔◌, List, Option, some, none, ◌==◌, if◌then◌else◌, arith}
use mathlib.Core.Quot
use mathlib.Core.Quot.{Quot, Quot-set}
use ink_db.Page.{PageId}
use ink_db.Buffer.Table.{PageTableHandle, NaiveMappingTable, new}
use ink_db.Buffer.Table.Laws.{insert_all, last_for, get-insert_all}
use ink_db.Buffer.Table
use ink_db.Buffer.Table.Interface.{PageTable, naive_get-insert}

-- Two tables that give the same handles.
abbrev pub SameHandles : NaiveMappingTable → NaiveMappingTable → Type 0
SameHandles t u = (id : PageId) → Table.get id t ≡ Table.get id u

abbrev pub MapView : Type 0
MapView = Quot SameHandles

abbrev pub view : NaiveMappingTable → MapView
view t = Quot.mk t

handle_set : IsSet (Option PageTableHandle)
handle_set = hlevel

-- `get` and `insert` on the view
pub handle_of : PageId → MapView → Option PageTableHandle
handle_of id = Quot.lift handle_set (Table.get id) (λ t u h. h id)

insert-SameHandles :
    (id : PageId) (h : PageTableHandle) (t u : NaiveMappingTable)
    → SameHandles t u
    → SameHandles (Table.insert id h t) (Table.insert id h u)
insert-SameHandles id h t u e other =
    ground (arith, naive_get-insert id other h t, naive_get-insert id other h u, e other)

pub with_handle : PageId → PageTableHandle → MapView → MapView
with_handle id h =
    Quot.lift Quot-set (λ t. view (Table.insert id h t))
      (λ t u e. Quot.sound (insert-SameHandles id h t u e))

pub handle_of-with_handle :
    (id other : PageId) (h : PageTableHandle) (v : MapView)
    → handle_of other (with_handle id h v) ≡ (if id == other then some h else handle_of other v)
unfolding handle_of with_handle
handle_of-with_handle id other h =
    Quot.ind (λ v. handle_set _ _) (λ t. naive_get-insert id other h t)

-- The view is a page table too, by the interface that clients use.
instance abbrev pub as_map : PageTable MapView
as_map = record { get = handle_of; insert = with_handle; get-insert = handle_of-with_handle }

pub view-insert_all :
    (calls others : List (PageId × PageTableHandle))
    → (view (insert_all calls new) ≡ view (insert_all others new))
      ↔ ((id : PageId) → last_for id calls none ≡ last_for id others none)
unfolding handle_of
view-insert_all calls others = (
  (λ e id. sym ((get-insert_all calls id).1) ∙ ap (handle_of id) e ∙ (get-insert_all others id).1),
  (λ same.
      Quot.sound λ id. (get-insert_all calls id).1 ∙ same id ∙ sym ((get-insert_all others id).1)),
)
