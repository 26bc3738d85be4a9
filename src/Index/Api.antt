-- ===== src/Index/Api.antt =====
-- All that an index page does for its callers (page/internal_page.rs): the calls of `IndexPageMut` that add
-- cells and set the sibling, the level and the type, and those of `IndexPageRef`, in any order.
pub mod Steps
pub mod Refines
use ink_db.Base.{
  ℕ, zero, suc, ◌^◌, ◌<◌, ◌≤◌, ◌≡◌, Bool, not, ◌==◌, List, [], ◌∷◌, Option, none, some,
  if◌then◌else◌,
}
use ink_db.Mem.{RawPage}
use ink_db.Outcome.{Profile, Outcome, ok, err, fault}
use ink_db.Page.{PageId}
use ink_db.Page.Kind.{PageKind, page_sub_type}
use ink_db.Slotted.{empty_slot_dir}
use ink_db.Slotted.Header.{get_page_type}
use ink_db.Slotted.Refine
use ink_db.Slotted.Refine.{Store, store_of}
use ink_db.Index.{IndexPageError, page_error}
use ink_db.Index.Header
use ink_db.Index.Header.{
  add_cell_append_slot_entry, add_cell_at_slot_entry_index, set_level, set_page_type,
}
use ink_db.Index.Sibling.{set_right_sibling}
use ink_db.Index.Ref
use ink_db.Index.Ref.{has_right_sibling, get_right_sibling}
use ink_db.Index.Cell.Laws.{IsCell, key_of}
use ink_db.Index.Find.{lt_bytes, find_child_ptr}
use ink_db.Index.Layout.{IsIndexPage, sibling}
use ink_db.Index.Route.{first_above}

pub data Call : Type 0 where
  append : List ℕ → Call
  put : ℕ → List ℕ → Call
  link : PageId → Call
  raise : ℕ → Call
  retype : PageKind → Call
  find : List ℕ → Call
  next_page has_next ask_kind ask_level : Call

-- What a call shows its caller.
pub data Reply : Type 0 where
  done broken : Reply
  refused : IndexPageError → Reply
  page : Option PageId → Reply
  flag : Bool → Reply
  is_kind : PageKind → Reply
  number : ℕ → Reply

-- An index page as its callers see it; the sibling 0 is none.
pub record Node : Type 0 where
  pub store : Store
  pub sibling : PageId
  pub kind : PageKind
  pub level : ℕ

abbrev pub cell_reply : Refine.Reply → Reply
cell_reply Refine.done = done
cell_reply (Refine.found c) = done
cell_reply (Refine.refused e) = refused (page_error e)
cell_reply Refine.broken = broken

abbrev pub store_step : Node → Refine.Reply × Store → Reply × Node
store_step s r = (cell_reply r.0, record s { store = r.1 })

-- Where the search for a key ends: with a right sibling the first cell holds the high key, above which
-- a key goes to the sibling.
abbrev pub route_reply : List ℕ → PageId → List (List ℕ) → Reply
route_reply key zero cs = page (first_above key cs)
route_reply key (suc s) [] = refused (page_error empty_slot_dir)
route_reply key (suc s) (c ∷ cs) =
    page (if lt_bytes (key_of c) key then some (suc s) else first_above key cs)

-- What an index page promises for a call.
abbrev pub promise : Node → Call → Reply × Node
promise s (append c) = store_step s (Refine.promise s.store (Refine.append c))
promise s (put k c) = store_step s (Refine.promise s.store (Refine.put k c))
promise s (link id) = (done, record s { sibling = id })
promise s (raise lvl) = (done, record s { level = lvl })
promise s (retype k) = (done, record s { kind = k; level = 0 })
promise s (find key) = (route_reply key s.sibling s.store.contents, s)
promise s next_page = (page (if s.sibling == 0 then none else some s.sibling), s)
promise s has_next = (flag (not (s.sibling == 0)), s)
promise s ask_kind = (is_kind s.kind, s)
promise s ask_level = (number s.level, s)

abbrev pub promise_all : List Call → Node → List Reply × Node
promise_all [] s = ([], s)
promise_all (c ∷ calls) s =
    let r = promise s c in let rest = promise_all calls r.1 in (r.0 ∷ rest.0, rest.1)

-- The reply of a method, and the page that it leaves.
abbrev pub reply : {A : Type 0} → (A → Reply) → RawPage → Outcome IndexPageError A → Reply × RawPage
reply f m (ok a m') = (f a, m')
reply f m (err e m') = (refused e, m')
reply f m (fault x) = (broken, m)

-- `none` is the panic of `IndexLevel::new`.
abbrev pub level_reply : Option ℕ → Reply
level_reply none = broken
level_reply (some n) = number n

-- A call on the bytes.
abbrev pub perform : Profile → RawPage → Call → Reply × RawPage
perform p m (append c) = reply (λ u. done) m (add_cell_append_slot_entry p c m)
perform p m (put k c) = reply (λ u. done) m (add_cell_at_slot_entry_index p k c m)
perform p m (link id) = reply (λ u. done) m (set_right_sibling p id m)
perform p m (raise lvl) = reply (λ u. done) m (set_level lvl m)
perform p m (retype k) = reply (λ u. done) m (set_page_type k m)
perform p m (find key) = reply page m (find_child_ptr p key m)
perform p m next_page = reply page m (get_right_sibling p m)
perform p m has_next = reply flag m (has_right_sibling p m)
perform p m ask_kind = (is_kind (Ref.kind m), m)
perform p m ask_level = (level_reply (Ref.level m), m)

abbrev pub perform_all : Profile → List Call → RawPage → List Reply × RawPage
perform_all p [] m = ([], m)
perform_all p (c ∷ calls) m =
    let r = perform p m c in let rest = perform_all p calls r.1 in (r.0 ∷ rest.0, rest.1)

abbrev pub node_of : RawPage → Node
node_of m = record {
  store = store_of m;
  sibling = sibling m;
  kind = Header.kind m;
  level = page_sub_type (get_page_type m);
}

-- A well-formed index page whose type is a byte.
pub record IsNode (m : RawPage) : Type 0 where
  pub valid : IsIndexPage m
  pub byte : get_page_type m < 256

-- A cell with the layout of index cells, a page number of 64 bits, a level of four bits.
abbrev pub IsGood : Call → Type 0
IsGood (append c) = IsCell c
IsGood (put k c) = IsCell c
IsGood (link id) = id < 2 ^ 64
IsGood (raise lvl) = lvl ≤ 15
IsGood _ = Unit

-- The same replies, and a well-formed index page that is seen as the promised one.
pub record Serves {R : Type 0} (out : R × RawPage) (said : R × Node) : Type 0 where
  pub replies : out.0 ≡ said.0
  pub view : node_of out.1 ≡ said.1
  pub node : IsNode out.1
