-- ===== src/Slotted/Api.antt =====
-- All that a slotted page does for its callers (page/slotted_page.rs): the calls on cells, the walk of
-- the directory, the fields of the header, the free space and the special area, in any order.
pub mod Refines
use ink_db.Base.{
  ℕ, ◌+◌, ◌-◌, ◌≤◌, ◌<◌, ◌≡◌, ◌≢◌, refl, ap, ap₂, ◌∙◌, List, [], ◌∷◌, All, arith, Option, none,
  some, if◌then◌else◌, ◌==◌, ℕ_discrete,
}
use ink_db.Mem.{RawPage, page_size, read_bytes, read_le, le_value}
use ink_db.Mem.Laws.{read_bytes-cong}
use ink_db.Outcome.{Profile, debug, release, Outcome, ok, err, fault}
use ink_db.Slotted.{PageError, special_offset_is_zero, header_size}
use ink_db.Slotted.Header.{
  free_start, free_end, get_special_offset, get_page_type, get_flags, get_lsn,
}
use ink_db.Slotted.Layout.{cells, IsSlotted}
use ink_db.Slotted.Extend.{HeaderRest}
use ink_db.Slotted.Fields as Setters
use ink_db.Slotted.Fields.{
  Fields, fields, Fits, SameRest, stored, stored-SameRest, fields-stored, set_lem, same_start,
  same_end, SameRest-cells, SameRest-IsSlotted, SameRest-special,
}
use ink_db.Slotted.Refine
use ink_db.Slotted.Refine.{Store, store_of, Agrees, perform-Agrees}
use ink_db.Slotted.Header
use ink_db.Slotted.Ref
use ink_db.Slotted.Ref.Laws.{get_special_ref-same}
use ink_db.Slotted.Ref.{free_contiguous_space, get_special_ref}
use ink_db.Slotted.Ref.Scan.{ReadsEntries, scan_all, scan_all-read_all}

pub data Call : Type 0 where
  on_cells : Refine.Call → Call
  assign : Setters.Call → Call
  inspect walk room special : Call

-- What a call shows its caller.
pub data Reply : Type 0 where
  replied : Refine.Reply → Reply
  seen : Fields → Reply
  listed : List (List ℕ) → Reply
  number : ℕ → Reply

pub record Page : Type 0 where
  pub store : Store
  pub fields : Fields
  pub special : Option (List ℕ)

abbrev pub area_reply : Option (List ℕ) → Reply
area_reply none = replied (Refine.refused special_offset_is_zero)
area_reply (some bs) = replied (Refine.found bs)

-- What a page promises for a call.
abbrev pub promise : Page → Call → Reply × Page
promise s (on_cells c) = let r = Refine.promise s.store c in (replied r.0, record s { store = r.1 })
promise s (assign c) = (replied Refine.done, record s { fields = Setters.assign c s.fields })
promise s inspect = (seen s.fields, s)
promise s walk = (listed s.store.contents, s)
promise s room = (number s.store.free, s)
promise s special = (area_reply s.special, s)

abbrev pub promise_all : List Call → Page → List Reply × Page
promise_all [] s = ([], s)
promise_all (c ∷ calls) s =
    let r = promise s c in let rest = promise_all calls r.1 in (r.0 ∷ rest.0, rest.1)

-- The reply of a method, and the page that it leaves.
abbrev pub reply : {A : Type 0} → (A → Reply) → RawPage → Outcome PageError A → Reply × RawPage
reply f m (ok a m') = (f a, m')
reply f m (err e m') = (replied (Refine.refused e), m')
reply f m (fault x) = (replied Refine.broken, m)

-- A call on the bytes.
abbrev pub perform : Profile → RawPage → Call → Reply × RawPage
perform p m (on_cells c) = let r = Refine.perform p m c in (replied r.0, r.1)
perform p m (assign c) = reply (λ u. replied Refine.done) m (Setters.set c m)
perform p m inspect = (seen (fields m), m)
perform p m walk = reply listed m (scan_all p m)
perform p m room = reply number m (free_contiguous_space p m)
perform p m special = reply (λ bs. replied (Refine.found bs)) m (get_special_ref p m)

abbrev pub perform_all : Profile → List Call → RawPage → List Reply × RawPage
perform_all p [] m = ([], m)
perform_all p (c ∷ calls) m =
    let r = perform p m c in let rest = perform_all p calls r.1 in (r.0 ∷ rest.0, rest.1)

unfoldable pub special_of : RawPage → Option (List ℕ)
special_of m =
    if get_special_offset m == 0
    then none
    else some (read_bytes m (get_special_offset m) (page_size - get_special_offset m))

abbrev pub page_of : RawPage → Page
page_of m = record { store = store_of m; fields = fields m; special = special_of m }

-- A well-formed page whose special area, if it has one, lies behind the cells.
pub record IsPage (lim : ℕ) (m : RawPage) : Type 0 where
  pub slotted : IsSlotted lim m
  pub area :
      get_special_offset m ≢ 0 → (lim ≤ get_special_offset m) × (get_special_offset m ≤ page_size)

-- A debug build walks the directory only if no cell can end with the page, and a field takes numbers of
-- its width.
abbrev pub Allowed : Profile → ℕ → Call → Type 0
Allowed p lim walk = ReadsEntries p lim
Allowed p lim (assign c) = Fits c
Allowed p lim _ = Unit

-- The same replies, and a well-formed page that is seen as the promised one.
pub record Keeps {R : Type 0} (lim : ℕ) (out : R × RawPage) (said : R × Page) : Type 0 where
  pub replies : out.0 ≡ said.0
  pub view : page_of out.1 ≡ said.1
  pub valid : IsPage lim out.1
