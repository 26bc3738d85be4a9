-- ===== src/Page.antt =====
-- Page identifiers and the byte-sized fields of a page's header (src/page/mod.rs).
pub mod Kind
pub mod Flags
use ink_db.Base.{ℕ, ◌*◌, ◌^◌, ◌%◌, Option, some, none, leb, ltb, if◌then◌else◌}
use ink_db.Outcome.{Profile, debug, release}

-- `PageID`, a `u64`; `SlotID`, a `u16`.
abbrev pub PageId : Type 0
PageId = ℕ

abbrev pub SlotId : Type 0
SlotId = ℕ

-- `PageID::to_offset`: `none` is the panic of a product that overflows in a debug build.
unfoldable pub to_offset : Profile → PageId → Option ℕ
to_offset debug id = if ltb (id * 4096) (2 ^ 64) then some (id * 4096) else none
to_offset release id = some (id * 4096 % 2 ^ 64)

-- `IndexLevel::new`: `none` is the panic of its `assert!`.
unfoldable pub index_level : ℕ → Option ℕ
index_level level = if leb level 15 then some level else none
