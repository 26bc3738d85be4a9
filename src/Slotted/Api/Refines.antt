-- ===== src/Slotted/Api/Refines.antt =====
-- The calls on a slotted page do what the page promises (page/slotted_page.rs).
use ink_db.Base.{
  ℕ, ◌+◌, ◌-◌, ◌≤◌, ◌<◌, ◌≡◌, refl, ap, ap₂, ◌∙◌, List, [], ◌∷◌, All, arith, ℕ_discrete,
}
use ink_db.Mem.{RawPage, page_size, read_bytes, read_le, le_value}
use ink_db.Mem.Laws.{read_bytes-cong}
use ink_db.Outcome.{Profile}
use ink_db.Slotted.{header_size}
use ink_db.Slotted.Header.{
  free_start, free_end, get_special_offset, get_page_type, get_flags, get_lsn,
}
use ink_db.Slotted.Layout.{IsSlotted}
use ink_db.Slotted.Extend.{HeaderRest}
use ink_db.Slotted.Fields as Setters
use ink_db.Slotted.Fields.{
  Fields, fields, Fits, SameRest, stored, stored-SameRest, fields-stored, set_lem, same_start,
  same_end, SameRest-cells, SameRest-IsSlotted, SameRest-special,
}
use ink_db.Slotted.Refine
use ink_db.Slotted.Refine.{Store, store_of, Agrees, perform-Agrees}
use ink_db.Slotted.Header
use ink_db.Slotted.Ref
use ink_db.Slotted.Ref.Laws.{get_special_ref-same}
use ink_db.Slotted.Ref.{free_contiguous_space, get_special_ref}
use ink_db.Slotted.Ref.Scan.{ReadsEntries, scan_all-read_all}
use ink_db.Slotted.Api.{
  Call, on_cells, assign, inspect, walk, room, special, Reply, replied, listed, Page, area_reply,
  promise, promise_all, reply, perform, perform_all, special_of, page_of, IsPage, Allowed, Keeps,
}

module _ {lim : ℕ} {m m' : RawPage} (x : IsPage lim m) where
  offset-header :
      ((j : ℕ) → j < header_size → HeaderRest j → m' j ≡ m j)
      → get_special_offset m' ≡ get_special_offset m
  unfolding get_special_offset read_le
  offset-header h =
      ap le_value (read_bytes-cong m' m 16 16 2 (λ i l. h (16 + i) (omega arith) (omega arith)))

  fields-header : ((j : ℕ) → j < header_size → HeaderRest j → m' j ≡ m j) → fields m' ≡ fields m
  unfolding get_page_type get_flags get_lsn read_le
  fields-header h = λ t. record {
    page_type = h 10 (omega arith) (omega arith) t;
    flags = h 11 (omega arith) (omega arith) t;
    lsn = ap le_value (read_bytes-cong m' m 0 0 8 (λ i l. h (0 + i) (omega arith) (omega arith))) t;
  }

  special-same :
      get_special_offset m' ≡ get_special_offset m
      → ((j : ℕ) → lim ≤ j → m' j ≡ m j)
      → special_of m' ≡ special_of m
  unfolding special_of
  special-same e h = elim (ℕ_discrete (get_special_offset m) 0) [
    | yes none_there ↦ ground (arith, e)
    | no there ↦
        let off : ℕ = get_special_offset m in
        let bytes : read_bytes m' off (page_size - off) ≡ read_bytes m off (page_size - off) =
          read_bytes-cong m' m off off (page_size - off)
            (λ i l. h (off + i) (omega (arith, x.area there))) in
        ground (arith, e, bytes)
  ]

  IsPage-same : IsSlotted lim m' → get_special_offset m' ≡ get_special_offset m → IsPage lim m'
  IsPage-same s e = record { slotted = s; area = λ n. rw e (x.area (rw e at n)) }

page-eq :
    (m : RawPage) (s : Page)
    → store_of m ≡ s.store
    → fields m ≡ s.fields
    → special_of m ≡ s.special
    → page_of m ≡ s
page-eq m s a b c = λ t. record { store = a t; fields = b t; special = c t }

module _ (p : Profile) {lim : ℕ} (m : RawPage) (x : IsPage lim m) where
  cells-Keeps :
      (c : Refine.Call) → Keeps lim (perform p m (on_cells c)) (promise (page_of m) (on_cells c))
  cells-Keeps c =
      let a = perform-Agrees p m x.slotted c in
      let e = offset-header x a.header in
      record {
        replies = ap replied a.replies;
        view = page-eq _ _ a.store (fields-header x a.header) (special-same x e a.rest);
        valid = IsPage-same x a.valid e;
      }

  assign-Keeps :
      (c : Setters.Call)
      → Fits c
      → Keeps lim (perform p m (assign c)) (promise (page_of m) (assign c))
  assign-Keeps c h =
      let r : SameRest m (stored c m) = stored-SameRest c m in
      let e = SameRest-special r in
      rw (set_lem c m) (record {
        replies = refl;
        view =
            page-eq _ _
              (ap₂ (λ cs n. record { contents = cs; free = n }) (SameRest-cells r x.slotted)
                (ap₂ ◌-◌ (same_end r) (same_start r)))
              (fields-stored c m h)
              (special-same x e (λ j l.
                (r j).1 (omega (arith, x.slotted.start, x.slotted.order, x.slotted.bound))));
        valid = IsPage-same x (SameRest-IsSlotted r x.slotted) e;
      })

  unchanged : (r : Reply) {out : Reply × RawPage} → out ≡ (r, m) → Keeps lim out (r, page_of m)
  unchanged r e = rw e (record { replies = refl; view = refl; valid = x })

  room-Keeps : Keeps lim (perform p m room) (promise (page_of m) room)
  unfolding free_contiguous_space Ref.free_start Ref.free_end free_start free_end
  room-Keeps = unchanged _ (ground (arith, x.slotted.order))

  special-reply :
      reply (λ bs. replied (Refine.found bs)) m (Header.get_special_ref p m)
      ≡ (area_reply (special_of m), m)
  unfolding Header.get_special_ref special_of
  special-reply = elim (ℕ_discrete (get_special_offset m) 0) [
    | yes none_there ↦ ground arith
    | no there ↦
        let off : ℕ = get_special_offset m in
        let back : off + (page_size - off) - off ≡ page_size - off = omega arith in
        ground (arith, x.area there)
  ]

  special-Keeps : Keeps lim (perform p m special) (promise (page_of m) special)
  special-Keeps =
      unchanged _
        (ap (reply (λ bs. replied (Refine.found bs)) m) (get_special_ref-same p m) ∙ special-reply)

  walk-Keeps : ReadsEntries p lim → Keeps lim (perform p m walk) (promise (page_of m) walk)
  walk-Keeps r = unchanged _ (ap (reply listed m) (scan_all-read_all p m x.slotted r).0)

  perform-Keeps : (c : Call) → Allowed p lim c → Keeps lim (perform p m c) (promise (page_of m) c)
  perform-Keeps (on_cells c) h = cells-Keeps c
  perform-Keeps (assign c) h = assign-Keeps c h
  perform-Keeps inspect h = record { replies = refl; view = refl; valid = x }
  perform-Keeps walk h = walk-Keeps h
  perform-Keeps room h = room-Keeps
  perform-Keeps special h = special-Keeps

-- On a well-formed page any sequence of the calls that add and read cells, walk the slot directory, set
-- and read the fields of the header, and read the free space and the special area gives the
-- replies, errors included, that the list of the cells, the free bytes, the fields and the bytes of the
-- special area promise, and leaves a well-formed page that is seen as what they promise. In a debug build
-- the directory is walked only if no cell can end with the page.
pub perform_all-Keeps :
    (p : Profile) {lim : ℕ} (calls : List Call) (m : RawPage)
    → IsPage lim m
    → All (Allowed p lim) calls
    → Keeps lim (perform_all p calls m) (promise_all calls (page_of m))
perform_all-Keeps p [] m x h = record { replies = refl; view = refl; valid = x }
perform_all-Keeps p (c ∷ calls) m x h =
    let one = perform-Keeps p m x c h.0 in
    let rest = perform_all-Keeps p calls (perform p m c).1 one.valid h.1 in
    record {
      replies =
          ap₂ (λ r rs. r ∷ rs) one.replies
            (rest.replies ∙ ap (λ t. (promise_all calls t).0) one.view);
      view = rest.view ∙ ap (λ t. (promise_all calls t).1) one.view;
      valid = rest.valid;
    }
