-- ===== src/Index/Cell.antt =====
-- Index cells (page/internal_page.rs): `IndexCellOwned` and `IndexCell`.
--   child pointer (8 bytes) | key length (2 bytes) | key
pub mod Laws
use ink_db.Base.{
  ℕ, ◌+◌, ◌-◌, List, ◌++◌, Bool, Option, none, some, ltb, leb, if◌then◌else◌, length, take, drop,
}
use ink_db.Mem.{page_size, le_bytes, le_value}
use ink_db.Outcome.{
  Profile, pure, ◌>>=◌, ◌>>◌, assert_that, debug_assert, within, undefined, as_u16,
}
use ink_db.Page.{PageId}
use ink_db.Slotted.{header_size, entry_size}
use ink_db.Index.{Indexed}

abbrev pub max_index_cell_size : ℕ
max_index_cell_size = page_size - header_size - entry_size

-- the bytes of a cell
abbrev pub encode : List ℕ → PageId → List ℕ
encode key child = le_bytes 8 child ++ (le_bytes 2 (as_u16 (length key)) ++ key)

-- `IndexCellOwned::new`; `none` is the panic of its `assert!`.
unfoldable pub new : List ℕ → PageId → Option (List ℕ)
new key child = if ltb (10 + length key) max_index_cell_size then some (encode key child) else none

-- `IndexCell::from`
unfoldable pub from : List ℕ → Indexed (List ℕ)
from cell = do assert_that (leb 10 (length cell)); pure cell

abbrev pub key_length : List ℕ → ℕ
key_length cell = le_value (take 2 (drop 8 cell))

-- The key is read through a raw pointer: past the cell that is undefined.
unfoldable pub get_key : Profile → List ℕ → Indexed (List ℕ)
get_key p cell = do
  debug_assert p (leb (10 + key_length cell) (length cell))
  within (leb (10 + key_length cell) (length cell)) undefined
      (take (key_length cell) (drop 10 cell))

unfoldable pub get_value_ptr : List ℕ → PageId
get_value_ptr cell = le_value (take 8 cell)
