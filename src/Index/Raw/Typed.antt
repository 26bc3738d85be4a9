-- ===== src/Index/Raw/Typed.antt =====
-- Any writes leave a page of bytes (page/slotted_page.rs, page/internal_page.rs).
use ink_db.Base.{ℕ, zero, suc, ◌+◌, ◌^◌, ◌<◌, ◌≡◌, List, [], ◌∷◌, All, arith, length, tabulate, leb}
use ink_db.Mem.{RawPage, IsRaw, IsBytes, read_bytes, read_le, write_bytes, le_bytes}
use ink_db.Mem.Laws.{write_bytes-IsRaw, length-read_bytes}
use ink_db.Mem.Words.{le_bytes-IsBytes, le_value_lt}
use ink_db.Outcome.{Profile, Outcome, ok, err, fault, within, panicked}
use ink_db.Outcome.Raw.{Raw, Left, raw_rules, convert-Raw, within_page}
use ink_db.Page.Kind
use ink_db.Page.Kind.{PageKind, discriminant, index_internal, into_u8, set_subtype_page_bits}
use ink_db.Page.Kind.Laws.{new-eq, into_u8_fits, set_subtype-eq}
use ink_db.Slotted.{PageError}
use ink_db.Slotted.Header
use ink_db.Slotted.Dir
use ink_db.Slotted.Cells
use ink_db.Slotted.Raw.{
  wipe_page-Raw, set_page_type-Raw, set_flags-Raw, set_lsn-Raw, set_special_offset-Raw,
  init_new-Raw, set_free_start-Raw, increment_free_start-Raw, set_free_end-Raw,
  append_slot_entry-Raw, insert_slot_entry_at_index-Raw, add_cell_append-Raw, add_cell_at-Raw,
}
use ink_db.Slotted.Header.{get_page_type, get_flags, get_lsn, get_special_offset, get_special_mut}
use ink_db.Index.{IndexPageError, right_sibling_offset}
use ink_db.Index.Level.{set_level_effect}
use ink_db.Index.Header as IndexHeader
use ink_db.Index.Header.{init_in_place, set_level}
use ink_db.Index.Sibling.{set_right_sibling}
use ink_db.Index.Raw.{
  Write, wipe, new, page_type, flags, lsn, special_offset, free_start, grow, free_end, entry,
  entry_at, cell, cell_at, index_new, index_kind, index_level, index_sibling, index_cell,
  index_cell_at, IsTyped, behind, write, write_all,
}

module _ (p : Profile) where
  internal_type-Raw :
      Raw {E = PageError} (Header.set_page_type (Kind.new (discriminant index_internal) 0))
  unfolding discriminant
  internal_type-Raw = set_page_type-Raw _ (omega (arith, new-eq 2 0 (omega arith) (omega arith)))

  init_in_place-Raw : (v : ℕ) → Raw (init_in_place p v)
  unfolding init_in_place
  init_in_place-Raw v =
      search
        (
          raw_rules, wipe_page-Raw, internal_type-Raw, set_special_offset-Raw, set_free_start-Raw,
          set_free_end-Raw, set_lsn-Raw,
        )
        depth 24

  type_byte : (m : RawPage) → IsRaw m → get_page_type m < 256
  unfolding get_page_type
  type_byte m h = h 10

  level_byte : (t l : ℕ) → t < 256 → l < 256 → set_subtype_page_bits t l < 256
  level_byte t l a b = omega (arith, set_subtype-eq t l a b)

  set_level-Raw : (l : ℕ) → l < 256 → Raw (set_level l)
  set_level-Raw l small = record {
    at = λ m h. rw (set_level_effect l m) (
        write_bytes-IsRaw m 10 (set_subtype_page_bits (get_page_type m) l ∷ []) h
          (level_byte (get_page_type m) l (type_byte m h) small, tt));
  }

  get_special_mut-Raw : Raw (get_special_mut p)
  unfolding get_special_mut
  get_special_mut-Raw = search raw_rules depth 24

  set_right_sibling-Raw : (id : ℕ) → Raw (set_right_sibling p id)
  unfolding set_right_sibling
  set_right_sibling-Raw id = record {
    at = λ m h. linked (get_special_mut p m) (get_special_mut-Raw.at m h);
  }
    where
      linked :
          (out : Outcome PageError (ℕ × ℕ))
          → Left out
          → Left {E = IndexPageError} {A = Unit {0}} (elim out [
            | ok (s, size) m' ↦
                within
                  (leb (right_sibling_offset + 8) size)
                  panicked
                  tt
                  (write_bytes m' (s + right_sibling_offset) (le_bytes 8 id))
            | err e m' ↦ ok tt m'
            | fault x ↦ fault x
          ])
      linked (ok (s, size) m') h = within_page IndexPageError _ _ _ (
          write_bytes-IsRaw m' (s + right_sibling_offset) (le_bytes 8 id) h (le_bytes-IsBytes 8 id))
      linked (err e m') h = h
      linked (fault x) h = tt

  index_kind-Raw : (k : PageKind) → Raw (IndexHeader.set_page_type k)
  unfolding IndexHeader.set_page_type
  index_kind-Raw k = convert-Raw _ _ (set_page_type-Raw (into_u8 k) (into_u8_fits k).0)

  index_cell-Raw : (c : List ℕ) → IsBytes c → Raw (IndexHeader.add_cell_append_slot_entry p c)
  unfolding IndexHeader.add_cell_append_slot_entry
  index_cell-Raw c h = convert-Raw _ _ (add_cell_append-Raw p c h)

  index_cell_at-Raw :
      (k : ℕ) (c : List ℕ) → IsBytes c → Raw (IndexHeader.add_cell_at_slot_entry_index p k c)
  unfolding IndexHeader.add_cell_at_slot_entry_index
  index_cell_at-Raw k c h = convert-Raw _ _ (add_cell_at-Raw p k c h)

  behind-IsRaw :
      {E A : Type 0} (f : RawPage → Outcome E A) (m : RawPage)
      → Raw f
      → IsRaw m
      → IsRaw (behind m (f m))
  behind-IsRaw f m r h = go (f m) (r.at m h)
    where
      go : {E A : Type 0} (out : Outcome E A) → Left out → IsRaw (behind m out)
      go (ok a m') l = l
      go (err e m') l = l
      go (fault x) l = h

  write-IsRaw : (w : Write) (m : RawPage) → IsTyped w → IsRaw m → IsRaw (write p w m)
  unfolding write
  write-IsRaw wipe m t h = behind-IsRaw Header.wipe_page m wipe_page-Raw h
  write-IsRaw (new b) m t h = behind-IsRaw (Header.init_new b) m (init_new-Raw b t) h
  write-IsRaw (page_type b) m t h =
      behind-IsRaw (Header.set_page_type b) m (set_page_type-Raw b t) h
  write-IsRaw (flags f) m t h = behind-IsRaw (Header.set_flags f) m (set_flags-Raw f t) h
  write-IsRaw (lsn v) m t h = behind-IsRaw (Header.set_lsn v) m (set_lsn-Raw v) h
  write-IsRaw (special_offset n) m t h =
      behind-IsRaw (Header.set_special_offset n) m (set_special_offset-Raw n) h
  write-IsRaw (free_start n) m t h =
      behind-IsRaw (Header.set_free_start p n) m (set_free_start-Raw p n) h
  write-IsRaw (grow n) m t h =
      behind-IsRaw (Header.increment_free_start p n) m (increment_free_start-Raw p n) h
  write-IsRaw (free_end n) m t h = behind-IsRaw (Header.set_free_end p n) m (set_free_end-Raw p n) h
  write-IsRaw (entry size offset) m t h =
      behind-IsRaw (Dir.append_slot_entry p size offset) m (append_slot_entry-Raw p size offset) h
  write-IsRaw (entry_at k e) m t h =
      behind-IsRaw (Dir.insert_slot_entry_at_index p k e) m (insert_slot_entry_at_index-Raw p k e) h
  write-IsRaw (cell c) m t h =
      behind-IsRaw (Cells.add_cell_append_slot_entry p c) m (add_cell_append-Raw p c t) h
  write-IsRaw (cell_at k c) m t h =
      behind-IsRaw (Cells.add_cell_at_slot_entry_index p k c) m (add_cell_at-Raw p k c t) h
  write-IsRaw (index_new v) m t h = behind-IsRaw (init_in_place p v) m (init_in_place-Raw v) h
  write-IsRaw (index_kind k) m t h =
      behind-IsRaw (IndexHeader.set_page_type k) m (index_kind-Raw k) h
  write-IsRaw (index_level l) m t h = behind-IsRaw (set_level l) m (set_level-Raw l t) h
  write-IsRaw (index_sibling id) m t h =
      behind-IsRaw (set_right_sibling p id) m (set_right_sibling-Raw id) h
  write-IsRaw (index_cell c) m t h =
      behind-IsRaw (IndexHeader.add_cell_append_slot_entry p c) m (index_cell-Raw c t) h
  write-IsRaw (index_cell_at k c) m t h =
      behind-IsRaw (IndexHeader.add_cell_at_slot_entry_index p k c) m (index_cell_at-Raw k c t) h

-- What the getters of the header give has their types.
pub record ReadsTyped (m : RawPage) : Type 0 where
  pub type_fits : get_page_type m < 256
  pub flags_fit : get_flags m < 256
  pub lsn_fits : get_lsn m < 2 ^ 64
  pub start_fits : Header.free_start m < 2 ^ 16
  pub end_fits : Header.free_end m < 2 ^ 16
  pub special_fits : get_special_offset m < 2 ^ 16

read_bytes-IsBytes : (m : RawPage) (o n : ℕ) → IsRaw m → IsBytes (read_bytes m o n)
unfolding read_bytes
read_bytes-IsBytes m o n h = tabulate-IsBytes n (λ i. m (o + i)) (λ i. h (o + i))
  where
    tabulate-IsBytes : (n : ℕ) (f : ℕ → ℕ) → ((i : ℕ) → f i < 256) → IsBytes (tabulate n f)
    tabulate-IsBytes zero f k = tt
    tabulate-IsBytes (suc n) f k = (k 0, tabulate-IsBytes n (λ i. f (suc i)) (λ i. k (suc i)))

read_le_lt : (n : ℕ) (m : RawPage) (o : ℕ) → IsRaw m → read_le n m o < 256 ^ n
unfolding read_le
read_le_lt n m o h =
    let size : length (read_bytes m o n) ≡ n = length-read_bytes m o n in
    rw size at (le_value_lt (read_bytes m o n) (read_bytes-IsBytes m o n h))

typed : (m : RawPage) → IsRaw m → ReadsTyped m
unfolding get_page_type get_flags get_lsn Header.free_start Header.free_end get_special_offset
typed m h = record {
  type_fits = h 10;
  flags_fit = h 11;
  lsn_fits = read_le_lt 8 m 0 h;
  start_fits = read_le_lt 2 m 12 h;
  end_fits = read_le_lt 2 m 14 h;
  special_fits = read_le_lt 2 m 16 h;
}

-- On any page of bytes, whatever its header, its directory and its cells say, any sequence of the methods
-- that change a slotted page or an index page, with arguments of their types, in either build, leaves a page of
-- bytes, also where some of them give an error; and what the getters of the header then read has the type that they give.
pub write_all-IsRaw :
    (p : Profile) (ws : List Write) (m : RawPage)
    → IsRaw m
    → All IsTyped ws
    → IsRaw (write_all p ws m) × ReadsTyped (write_all p ws m)
unfolding write_all
write_all-IsRaw p [] m h t = (h, typed m h)
write_all-IsRaw p (w ∷ ws) m h t = write_all-IsRaw p ws (write p w m) (write-IsRaw p w m t.0 h) t.1
