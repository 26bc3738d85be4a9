-- ===== src/Latch/Inv.antt =====
-- The invariant of the latch (src/buffer/page_table_latch.rs).
use ink_db.Base.{ℕ, ◌<◌, ◌≡◌, true}
use ink_db.Latch.{
  LoadResult, ok, on_disk, loading, in_memory, invalid, Latch, Pc, reading, taking, working,
  storing, publishing, returned, peek_data, peeked, owns,
}

-- What the locals of a thread say about the latch, which began with `d`.
abbrev pub Local : {T : Type 0} → T → (T → LoadResult T) → Latch T → Pc T → Type 0
Local d work l reading = l.state ≡ in_memory
Local d work l taking = (l.state ≡ loading) × (l.datum ≡ d)
Local d work l (working x) = (l.state ≡ loading) × (l.datum ≡ d) × (x ≡ d)
Local d work l (storing v) = (l.state ≡ loading) × (work d ≡ ok v)
Local d work l (publishing v) = (l.state ≡ loading) × (l.datum ≡ v) × (work d ≡ ok v)
Local d work l (returned (ok v)) = (l.state ≡ in_memory) × (l.datum ≡ v)
Local d work l (peek_data s) = s ≡ in_memory → l.state ≡ in_memory
Local d work l (peeked s v) = s ≡ in_memory → (l.state ≡ in_memory) × (l.datum ≡ v)
Local d work l _ = Unit

pub record Inv {T : Type 0} (d : T) (work : ℕ → T → LoadResult T) (l : Latch T) (pc : ℕ → Pc T)
    : Type 0 where
  pub known : l.state < invalid
  pub fits : (i : ℕ) → Local d (work i) l (pc i)
  pub unique : (i j : ℕ) → owns (pc i) ≡ true → owns (pc j) ≡ true → i ≡ j
  pub untouched : l.state ≡ on_disk → l.datum ≡ d
  pub loaded : l.state ≡ in_memory → (i : ℕ) × (work i d ≡ ok l.datum)
