-- ===== src/Index/Raw.antt =====
-- Every method that changes a slotted page or an index page keeps its bytes bytes
-- (page/slotted_page.rs, page/internal_page.rs), and what is read from such a page has its type.
pub mod Typed
use ink_db.Base.{ℕ, zero, suc, ◌+◌, ◌^◌, ◌<◌, ◌≡◌, List, [], ◌∷◌, All, arith, length, tabulate, leb}
use ink_db.Mem.{RawPage, IsRaw, IsBytes, read_bytes, read_le, write_bytes, le_bytes}
use ink_db.Mem.Laws.{write_bytes-IsRaw, length-read_bytes}
use ink_db.Mem.Words.{le_bytes-IsBytes, le_value_lt}
use ink_db.Outcome.{Profile, Outcome, ok, err, fault, within, panicked}
use ink_db.Outcome.Raw.{Raw, Left, raw_rules, convert-Raw, within_page}
use ink_db.Page.{PageId}
use ink_db.Page.Kind
use ink_db.Page.Kind.{PageKind, discriminant, index_internal, into_u8, set_subtype_page_bits}
use ink_db.Page.Kind.Laws.{new-eq, into_u8_fits, set_subtype-eq}
use ink_db.Slotted.{PageError, SlotEntry}
use ink_db.Slotted.Header
use ink_db.Slotted.Dir
use ink_db.Slotted.Cells
use ink_db.Slotted.Raw.{
  wipe_page-Raw, set_page_type-Raw, set_flags-Raw, set_lsn-Raw, set_special_offset-Raw,
  init_new-Raw, set_free_start-Raw, increment_free_start-Raw, set_free_end-Raw,
  append_slot_entry-Raw, insert_slot_entry_at_index-Raw, add_cell_append-Raw, add_cell_at-Raw,
}
use ink_db.Slotted.Header.{get_page_type, get_flags, get_lsn, get_special_offset, get_special_mut}
use ink_db.Index.{IndexPageError, right_sibling_offset}
use ink_db.Index.Level.{set_level_effect}
use ink_db.Index.Header as IndexHeader
use ink_db.Index.Header.{init_in_place, set_level}
use ink_db.Index.Sibling.{set_right_sibling}

-- The methods that change a page, with their arguments.
pub data Write : Type 0 where
  wipe : Write
  new page_type flags lsn special_offset free_start grow free_end : ℕ → Write
  entry : ℕ → ℕ → Write
  entry_at : ℕ → SlotEntry → Write
  cell : List ℕ → Write
  cell_at : ℕ → List ℕ → Write
  index_new : ℕ → Write
  index_kind : PageKind → Write
  index_level : ℕ → Write
  index_sibling : PageId → Write
  index_cell : List ℕ → Write
  index_cell_at : ℕ → List ℕ → Write

-- Arguments that are bytes; wider ones are cut down as they are stored.
abbrev pub IsTyped : Write → Type 0
IsTyped (new t) = t < 256
IsTyped (page_type t) = t < 256
IsTyped (flags f) = f < 256
IsTyped (index_level l) = l < 256
IsTyped (cell c) = IsBytes c
IsTyped (cell_at k c) = IsBytes c
IsTyped (index_cell c) = IsBytes c
IsTyped (index_cell_at k c) = IsBytes c
IsTyped _ = Unit

-- the page behind a call that returned or gave an error
abbrev pub behind : {E A : Type 0} → RawPage → Outcome E A → RawPage
behind m (ok a m') = m'
behind m (err e m') = m'
behind m (fault x) = m

unfoldable pub write : Profile → Write → RawPage → RawPage
write p wipe m = behind m (Header.wipe_page m)
write p (new t) m = behind m (Header.init_new t m)
write p (page_type t) m = behind m (Header.set_page_type t m)
write p (flags f) m = behind m (Header.set_flags f m)
write p (lsn v) m = behind m (Header.set_lsn v m)
write p (special_offset n) m = behind m (Header.set_special_offset n m)
write p (free_start n) m = behind m (Header.set_free_start p n m)
write p (grow n) m = behind m (Header.increment_free_start p n m)
write p (free_end n) m = behind m (Header.set_free_end p n m)
write p (entry size offset) m = behind m (Dir.append_slot_entry p size offset m)
write p (entry_at k e) m = behind m (Dir.insert_slot_entry_at_index p k e m)
write p (cell c) m = behind m (Cells.add_cell_append_slot_entry p c m)
write p (cell_at k c) m = behind m (Cells.add_cell_at_slot_entry_index p k c m)
write p (index_new v) m = behind m (init_in_place p v m)
write p (index_kind k) m = behind m (IndexHeader.set_page_type k m)
write p (index_level l) m = behind m (set_level l m)
write p (index_sibling id) m = behind m (set_right_sibling p id m)
write p (index_cell c) m = behind m (IndexHeader.add_cell_append_slot_entry p c m)
write p (index_cell_at k c) m = behind m (IndexHeader.add_cell_at_slot_entry_index p k c m)

unfoldable pub write_all : Profile → List Write → RawPage → RawPage
unfolding write
write_all p [] m = m
write_all p (w ∷ ws) m = write_all p ws (write p w m)
