-- ===== src/Slotted.antt =====
-- The raw slotted page, src/page/slotted_page.rs: the header's layout, errors and slot entries.
-- Its children hold the methods and what is proved of them.
pub mod Header
pub mod Dir
pub mod Cells
pub mod Ref
pub mod Layout
pub mod Effect
pub mod Place
pub mod Words
pub mod Extend
pub mod Added
pub mod Refine
pub mod Insert
pub mod Read
pub mod Fields
pub mod Api
pub mod Corrupt
pub mod Raw
pub mod Init
pub mod PageEnd
use ink_db.Base.{ℕ, ◌+◌, ◌-◌}
use ink_db.Outcome.{Method}

-- `PageError`
pub data PageError : Type 0 where
  empty_slot_dir slot_id_out_of_bounds corrupt_cell special_offset_is_zero : PageError
  slot_index_not_in_range no_contigious_space not_enough_free_space : PageError
  invalid_free_end invalid_free_start : PageError

-- `Result<T>` of the file
abbrev pub Slotted : Type 0 → Type 0
Slotted A = Method PageError A

-- `SlotEntry`: where a cell lies
pub record SlotEntry : Type 0 where
  pub offset : ℕ
  pub length : ℕ

abbrev pub entry_size : ℕ
entry_size = 4

abbrev pub lsn_offset : ℕ
lsn_offset = 0

abbrev pub checksum_offset : ℕ
checksum_offset = lsn_offset + 8

abbrev pub page_type_offset : ℕ
page_type_offset = checksum_offset + 2

abbrev pub flags_offset : ℕ
flags_offset = page_type_offset + 1

abbrev pub free_start_offset : ℕ
free_start_offset = flags_offset + 1

abbrev pub free_end_offset : ℕ
free_end_offset = free_start_offset + 2

abbrev pub special_offset : ℕ
special_offset = free_end_offset + 2

abbrev pub size_version_offset : ℕ
size_version_offset = special_offset + 2

abbrev pub txid_offset : ℕ
txid_offset = size_version_offset + 2

abbrev pub header_size : ℕ
header_size = txid_offset + 4
