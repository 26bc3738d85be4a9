-- ===== src/Latch/Progress.antt =====
-- What a thread in `load` can still do where no closure fails (src/buffer/page_table_latch.rs).
use ink_db.Base.{ℕ, ◌≡◌, ◌≢◌, refl, ◌∙◌, true, false, ◌⊎◌, arith, ℕ_discrete}
use ink_db.Outcome.{Profile}
use ink_db.Latch.{
  LoadResult, ok, on_disk, loading, in_memory, Latch, new, Pc, ready, reading, trying, returned,
  owns, update, System, pick, Reach, here, later, IsInit, Move, see_memory, cas_win, fail, unwind,
  publish,
}
use ink_db.Latch.Safety.{reached}
use ink_db.Latch.Alone.{Succeeds, lift, from_reading, from_owner, from_ready, from_trying, Returns}

-- In a call of `load`.
abbrev pub IsLoading : {T : Type 0} → Pc T → Type 0
IsLoading (ready _) = Unit
IsLoading (reading) = Unit
IsLoading (trying _) = Unit
IsLoading q = owns q ≡ true

abbrev pub Owned : {T : Type 0} → Latch T → (ℕ → Pc T) → Type 0
Owned l pc = l.state ≡ loading → (k : ℕ) × (owns (pc k) ≡ true)

module _ {T : Type 0} {p : Profile} {work : ℕ → T → LoadResult T}
    (good : (i : ℕ) → Succeeds (work i)) where
  Move-owns :
      (pc : ℕ → Pc T) {l l' : Latch T} {q q' : Pc T} (i k : ℕ)
      → Move p (work i) l q l' q'
      → pc i ≡ q
      → owns (pc k) ≡ true
      → l'.state ≡ loading
      → owns (update pc i q' k) ≡ true
  Move-owns pc i k (see_memory h) e o b = ground arith
  Move-owns pc i k (fail {d = d} h) e o b = absurd (ground (arith, (good i d).1))
  Move-owns pc i k (unwind {d = d} h) e o b = absurd (ground (arith, (good i d).1))
  Move-owns pc i k _ e o b = ground arith

  Move-Owned :
      (pc : ℕ → Pc T) {l l' : Latch T} {q q' : Pc T} (i : ℕ)
      → Move p (work i) l q l' q'
      → pc i ≡ q
      → Owned l pc
      → Owned l' (update pc i q')
  Move-Owned pc i (see_memory h) e own b = absurd (ground arith)
  Move-Owned pc i (cas_win h) e own b = (i, ground arith)
  Move-Owned pc i publish e own b = absurd (ground arith)
  Move-Owned pc i mv e own b = let (k, o) = own b in (k, Move-owns pc i k mv e o b)

  pub Reach-Owned : {s t : System T} → Owned s.latch s.pc → Reach p work s t → Owned t.latch t.pc
  Reach-Owned own here = own
  Reach-Owned own (later {t = t} r (pick i mv)) = Move-Owned t.pc i mv refl (Reach-Owned own r)

Reach-trans :
    {T : Type 0} {p : Profile} {work : ℕ → T → LoadResult T} {s t u : System T}
    → Reach p work s t
    → Reach p work t u
    → Reach p work s u
Reach-trans a here = a
Reach-trans a (later b st) = later (Reach-trans a b) st

-- A later state in which no load runs, and a thread is where it was.
record Settled {T : Type 0} (p : Profile) (work : ℕ → T → LoadResult T) (i : ℕ) (t : System T)
    : Type 0 where
  state : System T
  run : Reach p work t state
  quiet : state.latch.state ≢ loading
  same : state.pc i ≡ t.pc i

module _ {T : Type 0} {p : Profile} {work : ℕ → T → LoadResult T} {d : T} {s t : System T}
    (good : (i : ℕ) → Succeeds (work i)) (h : IsInit d s) (r : Reach p work s t) (i : ℕ) where
  start_Owned : Owned s.latch s.pc
  unfolding new
  start_Owned b = absurd (ground (arith, h.unused))

  settle : owns (t.pc i) ≡ false → Settled p work i t
  settle o = elim (ℕ_discrete t.latch.state loading) [
    | no n ↦ record { state = t; run = here; quiet = n; same = refl }
    | yes b ↦
        let (k, has) = Reach-Owned good start_Owned r b in
        let ret = from_owner {p = p} (good k) t.latch (t.pc k) has in
        let l = lift k t.pc refl ret.steps in
        record {
          state = record { latch = ret.after; pc = l.pc };
          run = l.run;
          quiet = omega (arith, ret.loaded);
          same = l.others i (λ e. ground arith);
        }
  ]

  -- one step short: a thread that can go on alone from a settled state
  from_settled :
      (u : System T) (q : Pc T)
      → Reach p work t u
      → u.pc i ≡ q
      → Returns p (work i) u.latch q
      → (v : System T) × (x : T) × Reach p work t v × (v.pc i ≡ returned (ok x))
  from_settled u q run e ret =
      let l = lift i u.pc e ret.steps in
      (record { latch = ret.after; pc = l.pc }, ret.value, Reach-trans run l.run, l.at)

  disk_or_memory :
      (c : Settled p work i t) → (c.state.latch.state ≡ on_disk) ⊎ (c.state.latch.state ≡ in_memory)
  disk_or_memory c = ground (arith, (reached h (Reach-trans r c.run)).known, c.quiet)

  from_pc :
      (q : Pc T)
      → t.pc i ≡ q
      → IsLoading q
      → (v : System T) × (x : T) × Reach p work t v × (v.pc i ≡ returned (ok x))
  from_pc (ready n) e o =
      let c = settle (ground arith) in
      from_settled c.state (ready n) c.run (c.same ∙ e)
        (from_ready (good i) c.state.latch n (disk_or_memory c))
  from_pc (trying n) e o =
      let c = settle (ground arith) in
      from_settled c.state (trying n) c.run (c.same ∙ e)
        (from_trying (good i) c.state.latch n (disk_or_memory c))
  from_pc reading e o =
      from_settled t reading here e (from_reading t.latch (ground (arith, (reached h r).fits i)))
  from_pc q e o = from_settled t q here e (from_owner (good i) t.latch q o)

-- If no closure fails, then in every state that threads reach from a new latch, in either build, a thread
-- that is in a call of `load` can still return a value: some further steps lead there. The threads never
-- block one another for good.
pub load-returns :
    {T : Type 0} {p : Profile} {d : T} {work : ℕ → T → LoadResult T} {s t : System T}
    → ((i : ℕ) → Succeeds (work i))
    → IsInit d s
    → Reach p work s t
    → (i : ℕ) → IsLoading (t.pc i)
    → (u : System T) × (v : T) × Reach p work t u × (u.pc i ≡ returned (ok v))
load-returns {t = t} good h r i o = from_pc good h r i (t.pc i) refl o
