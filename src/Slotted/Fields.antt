-- ===== src/Slotted/Fields.antt =====
-- The header's page type, flags and log sequence number (page/slotted_page.rs): calls that set them,
-- and what they read as.
use ink_db.Base.{
  ℕ, ◌+◌, ◌-◌, ◌/◌, ◌^◌, ◌≤◌, ◌<◌, ◌≡◌, refl, ap, ◌∙◌, List, [], ◌∷◌, All, arith, tabulate,
  tabulate-cong,
}
use ink_db.Mem.{RawPage, write_le, read_bytes, read_le, write_bytes, le_bytes, le_value}
use ink_db.Mem.Laws.{read_bytes-cong, write_bytes_out}
use ink_db.Mem.Words.{read_le-write_le, read_le-write_bytes_apart}
use ink_db.Outcome.{ok, pure, ◌>>◌}
use ink_db.Slotted.{Slotted, SlotEntry}
use ink_db.Slotted.Header.{
  free_start, free_end, get_special_offset, get_page_type, get_flags, get_lsn, set_page_type,
  set_flags, set_lsn,
}
use ink_db.Slotted.Layout.{entry_total, entry_base, entry_at, cell_at, cells, IsSlotted}

-- A call of a setter.
pub data Call : Type 0 where
  page_type flags lsn : ℕ → Call

-- The argument is a byte, or a number of 64 bits.
abbrev pub Fits : Call → Type 0
Fits (page_type v) = v < 256
Fits (flags v) = v < 256
Fits (lsn v) = v < 2 ^ 64

abbrev pub set : Call → Slotted (Unit {0})
set (page_type v) = set_page_type v
set (flags v) = set_flags v
set (lsn v) = set_lsn v

abbrev pub set_all : List Call → Slotted (Unit {0})
set_all [] = pure tt
set_all (c ∷ cs) = set c >> set_all cs

pub record Fields : Type 0 where
  pub page_type : ℕ
  pub flags : ℕ
  pub lsn : ℕ

abbrev pub fields : RawPage → Fields
fields m = record { page_type = get_page_type m; flags = get_flags m; lsn = get_lsn m }

-- What the calls mean for the fields.
abbrev pub assign : Call → Fields → Fields
assign (page_type v) s = record s { page_type = v }
assign (flags v) s = record s { flags = v }
assign (lsn v) s = record s { lsn = v }

abbrev pub assign_all : List Call → Fields → Fields
assign_all [] s = s
assign_all (c ∷ cs) s = assign_all cs (assign c s)

-- Pages that differ in the three fields only.
abbrev pub SameRest : RawPage → RawPage → Type 0
SameRest m m' = (j : ℕ) → (8 ≤ j → j < 10 → m' j ≡ m j) × (12 ≤ j → m' j ≡ m j)

-- The page that a call leaves.
pub stored : Call → RawPage → RawPage
stored (page_type v) m = write_bytes m 10 (v ∷ [])
stored (flags v) m = write_bytes m 11 (v ∷ [])
stored (lsn v) m = write_bytes m 0 (le_bytes 8 v)

pub stored-SameRest : (c : Call) (m : RawPage) → SameRest m (stored c m)
unfolding stored
stored-SameRest (page_type v) m j = (
  λ a b. write_bytes_out m 10 (v ∷ []) j (omega arith),
  λ a. write_bytes_out m 10 (v ∷ []) j (omega arith),
)
stored-SameRest (flags v) m j = (
  λ a b. write_bytes_out m 11 (v ∷ []) j (omega arith),
  λ a. write_bytes_out m 11 (v ∷ []) j (omega arith),
)
stored-SameRest (lsn v) m j = (
  λ a b. write_bytes_out m 0 (le_bytes 8 v) j (omega arith),
  λ a. write_bytes_out m 0 (le_bytes 8 v) j (omega arith),
)

fields-eq :
    (m : RawPage) (s : Fields)
    → get_page_type m ≡ s.page_type
    → get_flags m ≡ s.flags
    → get_lsn m ≡ s.lsn
    → fields m ≡ s
fields-eq m s a b c = λ t. record { page_type = a t; flags = b t; lsn = c t }

lsn-stored : (v : ℕ) (m : RawPage) → v < 2 ^ 64 → get_lsn (stored (lsn v) m) ≡ v
unfolding stored get_lsn write_le
lsn-stored v m h = read_le-write_le 8 m 0 v (omega arith)

pub fields-stored : (c : Call) (m : RawPage) → Fits c → fields (stored c m) ≡ assign c (fields m)
unfolding stored get_page_type get_flags get_lsn write_bytes
fields-stored (page_type v) m h =
    fields-eq _ _ refl refl (read_le-write_bytes_apart 8 m 10 (v ∷ []) 0 (omega arith))
fields-stored (flags v) m h =
    fields-eq _ _ refl refl (read_le-write_bytes_apart 8 m 11 (v ∷ []) 0 (omega arith))
fields-stored (lsn v) m h =
    fields-eq _ _ (write_bytes_out m 0 (le_bytes 8 v) 10 (omega arith))
      (write_bytes_out m 0 (le_bytes 8 v) 11 (omega arith)) (lsn-stored v m h)

pub set_lem : (c : Call) (m : RawPage) → set c m ≡ ok tt (stored c m)
unfolding stored set_page_type set_flags set_lsn write_le
set_lem (page_type v) m = refl
set_lem (flags v) m = refl
set_lem (lsn v) m = refl

set_all-step :
    (c : Call) (cs : List Call) (m : RawPage) → set_all (c ∷ cs) m ≡ set_all cs (stored c m)
set_all-step c cs m = ground (arith, set_lem c m)

set_all-fields :
    (cs : List Call) (m : RawPage)
    → All Fits cs
    → (m' : RawPage) × (set_all cs m ≡ ok tt m')
      × (fields m' ≡ assign_all cs (fields m))
      × SameRest m m'
set_all-fields [] m h = (m, refl, refl, λ j. (λ a b. refl, λ a. refl))
set_all-fields (c ∷ cs) m h =
    let (m', e, f, s) = set_all-fields cs (stored c m) h.1 in
    let first : SameRest m (stored c m) = stored-SameRest c m in
    (
      m',
      set_all-step c cs m ∙ e,
      f ∙ ap (assign_all cs) (fields-stored c m h.0),
      λ j. (λ a b. (s j).0 a b ∙ (first j).0 a b, λ a. (s j).1 a ∙ (first j).1 a),
    )

module _ {m m' : RawPage} (s : SameRest m m') where
  same_word : (n o : ℕ) → 12 ≤ o → read_le n m' o ≡ read_le n m o
  unfolding read_le
  same_word n o h = ap le_value (read_bytes-cong m' m o o n (λ i l. (s (o + i)).1 (omega arith)))

  pub same_start : free_start m' ≡ free_start m
  unfolding free_start
  same_start = same_word 2 12 (omega arith)

  pub same_end : free_end m' ≡ free_end m
  unfolding free_end
  same_end = same_word 2 14 (omega arith)

  same_entry : (i : ℕ) → entry_at m' i ≡ entry_at m i
  unfolding entry_at
  same_entry i = λ t. record {
    offset = same_word 2 (entry_base i) (omega arith) t;
    length = same_word 2 (entry_base i + 2) (omega arith) t;
  }

  pub same_total : entry_total m' ≡ entry_total m
  same_total = ap (λ n. (n - 24) / 4) same_start

  pub same_cell : (i : ℕ) → 12 ≤ (entry_at m i).offset → cell_at m' i ≡ cell_at m i
  unfolding cell_at
  same_cell i h =
      ap (λ (t : SlotEntry). read_bytes m' t.offset t.length) (same_entry i)
      ∙ read_bytes-cong m' m _ _ (entry_at m i).length
          (λ j l. (s ((entry_at m i).offset + j)).1 (omega arith))

  pub SameRest-IsSlotted : {lim : ℕ} → IsSlotted lim m → IsSlotted lim m'
  SameRest-IsSlotted x = record {
    start = omega (arith, same_start, x.start);
    aligned = omega (arith, same_start, x.aligned);
    order = omega (arith, same_start, same_end, x.order);
    bound = omega (arith, same_end, x.bound);
    limit = x.limit;
    inside =
        λ i h. rw (same_entry i) (omega (arith, same_end, x.inside i (omega (arith, same_total))));
  }

  pub SameRest-cells : {lim : ℕ} → IsSlotted lim m → cells m' ≡ cells m
  SameRest-cells x =
      ap (λ n. tabulate n (cell_at m')) same_total
      ∙ tabulate-cong (entry_total m) (cell_at m') (cell_at m)
          (λ i h. same_cell i (omega (arith, x.start, x.order, (x.inside i h).0)))

  pub SameRest-special : get_special_offset m' ≡ get_special_offset m
  unfolding get_special_offset
  SameRest-special = same_word 2 16 (omega arith)

-- Any calls of the setters of the type, the flags and the log sequence number on a well-formed page
-- return; each field is what the last call for it set, or what it was, and the page is well-formed
-- with the cells, the special area and the bytes of the checksum that it had.
pub set_all-assign_all :
    {lim : ℕ} (m : RawPage) (cs : List Call)
    → IsSlotted lim m
    → All Fits cs
    → (m' : RawPage) × (set_all cs m ≡ ok tt m')
      × (fields m' ≡ assign_all cs (fields m))
      × IsSlotted lim m'
      × (cells m' ≡ cells m)
      × (get_special_offset m' ≡ get_special_offset m)
      × ((j : ℕ) → 8 ≤ j → j < 10 → m' j ≡ m j)
set_all-assign_all m cs x h =
    let (m', e, f, s) = set_all-fields cs m h in
    (m', e, f, SameRest-IsSlotted s x, SameRest-cells s x, SameRest-special s, λ j a b. (s j).0 a b)
