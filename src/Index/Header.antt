-- ===== src/Index/Header.antt =====
-- The header methods of `IndexPageMut` and `IndexPageRef`, and the methods that add a cell
-- (page/internal_page.rs).
use ink_db.Base.{ℕ, ◌-◌, List, Option}
use ink_db.Mem.{RawPage, page_size}
use ink_db.Outcome.{Profile, ◌>>=◌, ◌>>◌, convert, asks}
use ink_db.Page.{index_level}
use ink_db.Page.Kind
use ink_db.Page.Kind.{
  PageKind, index_internal, discriminant, into_u8, page_kind, page_sub_type, set_subtype_page_bits,
}
use ink_db.Slotted.{header_size}
use ink_db.Slotted.Header
use ink_db.Slotted.Header.{
  wipe_page, set_special_offset, set_free_start, set_free_end, set_lsn, get_page_type,
}
use ink_db.Slotted.Cells
use ink_db.Index.{Indexed, page_error, index_special_size}

unfoldable pub init_in_place : Profile → ℕ → Indexed (Unit {0})
init_in_place p lsn = convert page_error do
  wipe_page
  Header.set_page_type (Kind.new (discriminant index_internal) 0)
  set_special_offset index_special_size
  set_free_start p header_size
  set_free_end p (page_size - index_special_size)
  set_lsn lsn

unfoldable pub set_page_type : PageKind → Indexed (Unit {0})
set_page_type k = convert page_error (Header.set_page_type (into_u8 k))

unfoldable pub kind : RawPage → PageKind
kind m = page_kind (get_page_type m)

-- `none` is the panic of `IndexLevel::new`.
unfoldable pub level : RawPage → Option ℕ
level m = index_level (page_sub_type (get_page_type m))

unfoldable pub set_level : ℕ → Indexed (Unit {0})
set_level lvl = do
  t ← asks get_page_type
  convert page_error (Header.set_page_type (set_subtype_page_bits t lvl))

unfoldable pub add_cell_append_slot_entry : Profile → List ℕ → Indexed (Unit {0})
add_cell_append_slot_entry p cell = convert page_error (Cells.add_cell_append_slot_entry p cell)

unfoldable pub add_cell_at_slot_entry_index : Profile → ℕ → List ℕ → Indexed (Unit {0})
add_cell_at_slot_entry_index p index cell =
    convert page_error (Cells.add_cell_at_slot_entry_index p index cell)
