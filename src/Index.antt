-- ===== src/Index.antt =====
-- Index pages, src/page/internal_page.rs: their cells, their header fields, the right sibling in the
-- special area, and the search for a child.
pub mod Cell
pub mod Header
pub mod Sibling
pub mod Ref
pub mod Find
pub mod Layout
pub mod Route
pub mod Fresh
pub mod Ends
pub mod Order
pub mod Sorted
pub mod Added
pub mod Bulk
pub mod Corrupt
pub mod Raw
pub mod Grow
pub mod Level
pub mod Edit
pub mod Link
pub mod Split
pub mod Api
use ink_db.Base.{ℕ}
use ink_db.Outcome.{Method}
use ink_db.Slotted.{PageError}

-- `IndexPageError`; `page_error` is its `From<PageError>`.
pub data IndexPageError : Type 0 where
  page_error : PageError → IndexPageError
  invalid_page_type invalid_level : IndexPageError

abbrev pub Indexed : Type 0 → Type 0
Indexed A = Method IndexPageError A

abbrev pub index_special_size : ℕ
index_special_size = 16

abbrev pub right_sibling_offset : ℕ
right_sibling_offset = 8
