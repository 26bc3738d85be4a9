-- ===== src/Tree.antt =====
-- What there is of the B-tree, the transactions and the cache so far: src/tree/btree_base.rs,
-- src/transaction/tx_memory.rs, src/meta/meta.rs and src/buffer/page_cache.rs.
use ink_db.Base.{ℕ, List, []}
use ink_db.Page.{PageId}
use ink_db.Index.{IndexPageError}
use ink_db.Buffer.Frame.{PageFrame}

-- `BTreeInnerError`, and its `From`
pub data BTreeInnerError : Type 0 where
  index_page_error : IndexPageError → BTreeInnerError

-- `Result<PageID>`
pub data TreeResult : Type 0 where
  ok : PageId → TreeResult
  err : BTreeInnerError → TreeResult

-- `TxMemory`; its cache is the unit so far.
pub record TxMemory : Type 0 where
  pub id : ℕ

abbrev pub new_fake_tx : ℕ → TxMemory
new_fake_tx id = record { id = id }

-- `BTreeMetaPage`
pub record BTreeMetaPage : Type 0 where
  pub version : ℕ
  pub checksum : ℕ
  pub root : PageId

-- `BInner`
pub record BInner : Type 0 where
  pub tx : TxMemory

abbrev pub new : TxMemory → BInner
new tx = record { tx = tx }

-- `traverse`, which goes nowhere yet
abbrev pub traverse : BInner → PageId → List ℕ → TreeResult
traverse b page key = ok 0

-- `PageCacheError`
pub data PageCacheError : Type 0 where
  page_allocation_failed : PageCacheError

-- `Result<T>` of the cache
pub data CacheResult (A : Type 0) : Type 0 where
  ok : A → CacheResult A
  err : PageCacheError → CacheResult A

-- The trait `PageCache`, for a cache that the calls change. The closure of `get` is given the bytes of the
-- page and changes what it has captured.
pub record PageCache (C : Type 0) : Type 1 where
  pub get : (S : Type 0) → PageId → (List ℕ → S → S) → C → S → C × S
  pub fetch : PageId → C → C × CacheResult PageFrame
  pub put : C → C × CacheResult (Unit {0})
  pub remove : PageId → C → C × CacheResult (Unit {0})

-- `BaseFileCache`: the pages of its map, each of which has the unit so far.
pub record BaseFileCache : Type 0 where
  pub cache : List PageId

abbrev pub new_cache : BaseFileCache
new_cache = record { cache = [] }
