-- ===== src/Index/Fresh.antt =====
-- A fresh index page, and index pages that cells and a sibling are added to
-- (page/internal_page.rs).
use ink_db.Base.{ℕ, ◌-◌, ◌/◌, ◌^◌, ◌<◌, ◌≡◌, refl, ap, [], ◌∷◌, arith, some, tabulate}
use ink_db.Mem.{RawPage, read_bytes, read_le, write_le, write_bytes}
use ink_db.Mem.Words.{read_le-write_le}
use ink_db.Outcome.{Profile, debug, release, ok}
use ink_db.Page.{PageId}
use ink_db.Page.Kind.{PageKind, index_internal}
use ink_db.Slotted.{header_size}
use ink_db.Page
use ink_db.Page.Kind
use ink_db.Slotted.Header
use ink_db.Slotted.Header.{
  free_start, free_end, get_special_offset, get_special_mut, get_lsn, get_page_type,
}
use ink_db.Slotted.Layout.{cell_at, cells}
use ink_db.Index.Header.{init_in_place, kind, level}
use ink_db.Index.Layout.{IsIndexPage, sibling, special_start}

-- the page that `init_in_place` leaves
abbrev fresh : ℕ → RawPage
fresh lsn =
    write_le 8
      (write_le 2 (write_le 2 (write_le 2 (write_bytes (λ _. 0) 10 (2 ∷ [])) 16 4080) 12 24) 14
        4080)
      0 lsn

init_lem : (p : Profile) (lsn : ℕ) (m : RawPage) → init_in_place p lsn m ≡ ok tt (fresh lsn)
unfolding init_in_place Header.wipe_page Header.set_page_type Header.set_special_offset
    Header.set_free_start Header.set_free_end Header.set_lsn Kind.new Kind.discriminant free_start
    read_le read_bytes write_le write_bytes
init_lem debug lsn m = refl
init_lem release lsn m = refl

fresh-words :
    (lsn : ℕ)
    → (free_start (fresh lsn) ≡ 24)
      × (free_end (fresh lsn) ≡ special_start)
      × (get_special_offset (fresh lsn) ≡ special_start)
unfolding free_start free_end get_special_offset read_le read_bytes write_le write_bytes
fresh-words lsn = (refl, refl, refl)

fresh-IsIndexPage : (lsn : ℕ) → IsIndexPage (fresh lsn)
fresh-IsIndexPage lsn = record {
  slotted = record {
    start = omega (arith, fresh-words lsn);
    aligned = omega (arith, fresh-words lsn);
    order = omega (arith, fresh-words lsn);
    bound = omega (arith, fresh-words lsn);
    limit = omega arith;
    inside = λ i h. absurd (omega (arith, fresh-words lsn));
  };
  special = (fresh-words lsn).2;
  parsed = λ i h. absurd (omega (arith, fresh-words lsn));
}

-- What a fresh index page is like: no cell, all space but the header and the special area free, no
-- sibling, an internal page of level 0, with the LSN.
pub record IsFreshIndex (lsn : ℕ) (m : RawPage) : Type 0 where
  pub valid : IsIndexPage m
  pub no_cells : cells m ≡ []
  pub space : free_end m - free_start m ≡ special_start - header_size
  pub no_sibling : sibling m ≡ 0
  pub internal : kind m ≡ index_internal
  pub bottom : level m ≡ some 0
  pub type_byte : get_page_type m ≡ 2
  pub stamped : get_lsn m ≡ lsn

-- On any bytes, in either build, with an LSN that fits 64 bits, `init_in_place` returns a well-formed index page that is fresh.
pub init_in_place-IsFreshIndex :
    (p : Profile) (lsn : ℕ) (m : RawPage)
    → lsn < 2 ^ 64
    → (m' : RawPage) × (init_in_place p lsn m ≡ ok tt m') × IsFreshIndex lsn m'
unfolding sibling kind level Header.get_page_type Kind.page_kind Kind.page_sub_type Page.index_level
    get_lsn read_bytes write_le write_bytes
init_in_place-IsFreshIndex p lsn m h = (
  fresh lsn,
  init_lem p lsn m,
  record {
    valid = fresh-IsIndexPage lsn;
    no_cells = ap (λ n. tabulate ((n - 24) / 4) (cell_at (fresh lsn))) (fresh-words lsn).0;
    space = omega (arith, fresh-words lsn);
    no_sibling = refl;
    internal = refl;
    bottom = refl;
    type_byte = refl;
    stamped = read_le-write_le 8 _ 0 lsn h;
  },
)
