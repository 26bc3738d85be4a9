-- ===== src/Buffer/Table/Laws.antt =====
-- What the page table answers, and where its entries point (src/buffer/page_table.rs).
use ink_db.Base.{
  sym, ℕ_discrete, ℕ, suc, ◌-◌, ◌*◌, ◌%◌, ◌^◌, ◌≤◌, ◌<◌, ◌≡◌, ◌≢◌, refl, ap, arith, ◌==◌,
  if◌then◌else◌, Option, none, some, List, [], ◌∷◌,
}
use ink_db.Outcome.{Profile, debug, release}
use ink_db.Page.{PageId, to_offset}
use ink_db.Latch
use ink_db.Buffer.Table.{
  PageTableResult, disk, memory, PageTableEntry, new_entry, NaiveMappingTable, PageTableHandle, new,
  lookup, replace, get, insert,
}

-- Where the page is, on disk or in memory.
abbrev offset_of : PageTableResult → ℕ
offset_of (disk n) = n
offset_of (memory n) = n

-- How many pairs of a list have a key.
abbrev pub pairs_of : PageId → List (PageId × PageTableHandle) → ℕ
pairs_of id [] = 0
pairs_of id ((k, h) ∷ rest) = if k == id then suc (pairs_of id rest) else pairs_of id rest

pub lookup-replace :
    (id other : PageId) (h : PageTableHandle) (es : List (PageId × PageTableHandle))
    → lookup other (replace id h es) ≡ (if id == other then some h else lookup other es)
unfolding lookup replace
lookup-replace id other h [] = refl
lookup-replace id other h ((k, g) ∷ rest) = ground (arith, lookup-replace id other h rest)

module _ (id : PageId) (h : PageTableHandle) where
  replace-hit :
      (k : PageId) (g : PageTableHandle) (rest : List (PageId × PageTableHandle))
      → k ≡ id
      → replace id h ((k, g) ∷ rest) ≡ (id, h) ∷ rest
  unfolding replace
  replace-hit k g rest e = ground arith

  replace-miss :
      (k : PageId) (g : PageTableHandle) (rest : List (PageId × PageTableHandle))
      → k ≢ id
      → replace id h ((k, g) ∷ rest) ≡ (k, g) ∷ replace id h rest
  unfolding replace
  replace-miss k g rest e = ground arith

  pairs_of-replace_other :
      (other : PageId) (es : List (PageId × PageTableHandle))
      → id ≢ other
      → pairs_of other (replace id h es) ≡ pairs_of other es
  unfolding replace
  pairs_of-replace_other other [] n = ground arith
  pairs_of-replace_other other ((k, g) ∷ rest) n = elim (ℕ_discrete k id) [
    | yes e ↦ rw (replace-hit k g rest e) (ground arith)
    | no e ↦ rw (replace-miss k g rest e) (ground (arith, pairs_of-replace_other other rest n))
  ]

  pairs_of-replace_same :
      (es : List (PageId × PageTableHandle))
      → pairs_of id es ≤ 1
      → pairs_of id (replace id h es) ≤ 1
  unfolding replace
  pairs_of-replace_same [] l = ground arith
  pairs_of-replace_same ((k, g) ∷ rest) l = elim (ℕ_discrete k id) [
    | yes e ↦ rw (replace-hit k g rest e) (ground arith)
    | no e ↦ rw (replace-miss k g rest e) (ground (arith, pairs_of-replace_same rest))
  ]

  pairs_of-replace :
      (other : PageId) (es : List (PageId × PageTableHandle))
      → pairs_of other es ≤ 1
      → pairs_of other (replace id h es) ≤ 1
  pairs_of-replace other es l = elim (ℕ_discrete id other) [
    | yes e ↦ rw (sym e) (pairs_of-replace_same es (rw e l))
    | no n ↦ rw (pairs_of-replace_other other es n) l
  ]

-- A sequence of calls of `insert`.
abbrev pub insert_all : List (PageId × PageTableHandle) → NaiveMappingTable → NaiveMappingTable
insert_all [] t = t
insert_all ((id, h) ∷ calls) t = insert_all calls (insert id h t)

-- The handle of the last call for a page, or what was there before the calls.
abbrev pub last_for :
    PageId → List (PageId × PageTableHandle) → Option PageTableHandle → Option PageTableHandle
last_for id [] before = before
last_for id ((k, h) ∷ calls) before = last_for id calls (if k == id then some h else before)

-- Each page stands in the map at most once.
abbrev pub IsMap : NaiveMappingTable → Type 0
IsMap t = (id : PageId) → pairs_of id t.entries ≤ 1

get-insert_all_from :
    (calls : List (PageId × PageTableHandle)) (t : NaiveMappingTable) (id : PageId)
    → get id (insert_all calls t) ≡ last_for id calls (get id t)
unfolding get insert
get-insert_all_from [] t id = refl
get-insert_all_from ((k, h) ∷ calls) t id =
    rw (sym (lookup-replace k id h t.entries)) (get-insert_all_from calls (insert k h t) id)

insert_all-IsMap :
    (calls : List (PageId × PageTableHandle)) (t : NaiveMappingTable)
    → IsMap t
    → IsMap (insert_all calls t)
unfolding insert
insert_all-IsMap [] t m = m
insert_all-IsMap ((k, h) ∷ calls) t m =
    insert_all-IsMap calls (insert k h t) λ id'. pairs_of-replace k h id' t.entries (m id')

-- After any sequence of calls of `insert` on a new table, each page stands in the map at most once, and
-- `get` gives the handle of the last call for the page, or none where there was no call.
pub get-insert_all :
    (calls : List (PageId × PageTableHandle)) (id : PageId)
    → IsMap (insert_all calls new) × (get id (insert_all calls new) ≡ last_for id calls none)
unfolding get new lookup
get-insert_all calls id =
    (insert_all-IsMap calls new (λ id. omega arith), get-insert_all_from calls new id)

new_entry-offset :
    (p : Profile) (id : PageId) (e : PageTableEntry)
    → new_entry p id ≡ some e
    → to_offset p id ≡ some (offset_of e.state.datum)
unfolding new_entry Latch.new
new_entry-offset p id e h = ground arith

-- In a debug build the new entries of two pages are the same only if the pages are: no two pages are
-- read from one place.
pub new_entry-injective :
    (a b : PageId) (e : PageTableEntry)
    → new_entry debug a ≡ some e
    → new_entry debug b ≡ some e
    → a ≡ b
unfolding to_offset
new_entry-injective a b e h k =
    ground (arith, new_entry-offset debug a e h, new_entry-offset debug b e k)

-- On the pages from 2 ^ 52 up to 2 ^ 64 `new_entry` panics in a debug build, and in a release build gives the entry of
-- the page 2 ^ 52 before.
pub new_entry-wraps :
    (a : PageId)
    → 2 ^ 52 ≤ a
    → a < 2 ^ 64
    → (new_entry debug a ≡ none) × (new_entry release a ≡ new_entry release (a - 2 ^ 52))
unfolding new_entry to_offset
new_entry-wraps a l h =
    let e : a * 4096 % 2 ^ 64 ≡ (a - 2 ^ 52) * 4096 % 2 ^ 64 = omega arith in
    (ground arith, ap (λ n. some (record { state = Latch.new (disk n) })) e)
