-- ===== src/Slotted/Init.antt =====
-- A page that `init_new` has prepared, and the header's setters with their getters.
use ink_db.Base.{ℕ, ◌-◌, ◌≡◌, refl, ap, [], ◌∷◌, arith, tabulate}
use ink_db.Mem.{RawPage, page_size, read_le, write_le, write_bytes, read_bytes}
use ink_db.Outcome.{ok}
use ink_db.Slotted.{header_size}
use ink_db.Slotted.Header.{
  free_start, free_end, init_new, get_page_type, get_special_offset, get_lsn, get_flags,
}
use ink_db.Slotted.Layout.{entry_total, cell_at, cells, IsSlotted}

-- the page that `init_new` leaves
abbrev pub prepared : ℕ → RawPage → RawPage
prepared t m =
    write_bytes (write_le 2 (write_le 2 (write_bytes m 10 (0xff ∷ [])) 12 header_size) 14 page_size)
      10 (t ∷ [])

pub free_start-prepared : (t : ℕ) (m : RawPage) → free_start (prepared t m) ≡ header_size
unfolding free_start read_le read_bytes write_le write_bytes
free_start-prepared t m = refl

pub free_end-prepared : (t : ℕ) (m : RawPage) → free_end (prepared t m) ≡ page_size
unfolding free_end read_le read_bytes write_le write_bytes
free_end-prepared t m = refl

pub prepared-IsSlotted : (t : ℕ) (m : RawPage) → IsSlotted page_size (prepared t m)
prepared-IsSlotted t m = record {
  start = omega (arith, free_start-prepared t m);
  aligned = omega (arith, free_start-prepared t m);
  order = omega (arith, free_start-prepared t m, free_end-prepared t m);
  bound = omega (arith, free_end-prepared t m);
  limit = omega arith;
  inside = λ i h. absurd (omega (arith, free_start-prepared t m));
}

pub cells-prepared : (t : ℕ) (m : RawPage) → cells (prepared t m) ≡ []
cells-prepared t m =
    let none_yet : entry_total (prepared t m) ≡ 0 = omega (arith, free_start-prepared t m) in
    ap (λ n. tabulate n (cell_at (prepared t m))) none_yet

-- What a page prepared with the type `t` is like: empty, with the bytes that `init_new` does not
-- name as they were.
pub record IsFresh (t : ℕ) (m m' : RawPage) : Type 0 where
  pub valid : IsSlotted page_size m'
  pub no_cells : cells m' ≡ []
  pub typed : get_page_type m' ≡ t
  pub space : free_end m' - free_start m' ≡ page_size - header_size
  pub same_special : get_special_offset m' ≡ get_special_offset m
  pub same_flags : get_flags m' ≡ get_flags m
  pub same_lsn : get_lsn m' ≡ get_lsn m

prepared-IsFresh : (t : ℕ) (m : RawPage) → IsFresh t m (prepared t m)
unfolding get_page_type get_special_offset get_flags get_lsn read_le read_bytes write_le write_bytes
prepared-IsFresh t m = record {
  valid = prepared-IsSlotted t m;
  no_cells = cells-prepared t m;
  typed = refl;
  space = omega (arith, free_start-prepared t m, free_end-prepared t m);
  same_special = refl;
  same_flags = refl;
  same_lsn = refl;
}

-- On any bytes `init_new` returns a well-formed page with no cell, of the given type, whose free
-- space is all but the header; the special offset, the flags and the LSN stay as they were.
pub init_new-IsFresh :
    (t : ℕ) (m : RawPage) → (m' : RawPage) × (init_new t m ≡ ok tt m') × IsFresh t m m'
unfolding init_new
init_new-IsFresh t m = (prepared t m, refl, prepared-IsFresh t m)
