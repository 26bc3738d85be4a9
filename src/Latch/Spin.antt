-- ===== src/Latch/Spin.antt =====
-- A thread that waits while a load runs (src/buffer/page_table_latch.rs): the rounds of the loop, which
-- `spin_count` counts.
use ink_db.Base.{
  ℕ, zero, suc, ◌+◌, ◌-◌, ◌%◌, ◌≤◌, ◌≡◌, refl, sym, ap, ◌∙◌, ◌⊎◌, inl, inr, arith, dec_lt,
}
use mathlib.Core.Path.{subst}
use ink_db.Outcome.{Profile, debug, release}
use ink_db.Latch.{
  LoadResult, loading, Latch, Pc, ready, panicked, update, System, Move, see_memory, see_disk, wait,
  wait_wraps, wait_overflows, see_invalid,
}

-- A number of steps of the thread `i`, with no other thread's between them.
pub data Solo {T : Type 0} (p : Profile) (work : ℕ → T → LoadResult T) (i : ℕ) (s : System T)
    : ℕ → System T → Type 0 where
  begin : Solo p work i s zero s
  round :
      {k : ℕ} {t : System T} {l : Latch T} {q : Pc T}
      → Solo p work i s k t
      → Move p (work i) t.latch (t.pc i) l q
      → Solo p work i s (suc k) (record { latch = l; pc = update t.pc i q })

round_at :
    {T : Type 0} {p : Profile} {work : ℕ → T → LoadResult T} {i k : ℕ} {s : System T} (t : System T)
    {l : Latch T} {q q' : Pc T}
    → Solo p work i s k t
    → t.pc i ≡ q
    → Move p (work i) t.latch q l q'
    → Solo p work i s (suc k) (record { latch = l; pc = update t.pc i q' })
round_at {p = p} {work = work} {i = i} t {l = l} {q' = q'} run e mv =
    round run (subst (λ q. Move p (work i) t.latch q l q') (sym e) mv)

-- The thread has found a load running in each of its rounds, or has panicked in the 256th.
abbrev pub Counted : {T : Type 0} → ℕ → Pc T → Type 0
Counted m q = ((m ≤ 255) × (q ≡ ready m)) ⊎ ((m ≡ 256) × (q ≡ panicked))

module _ {T : Type 0} {work : T → LoadResult T} {l : Latch T} where
  debug-round :
      {q q' : Pc T} {l' : Latch T} (m : ℕ)
      → Move debug work l q l' q'
      → l.state ≡ loading
      → Counted m q
      → (l' ≡ l) × Counted (suc m) q'
  debug-round m (see_memory h) b (inl c) = absurd (omega (arith, b))
  debug-round m (see_disk h) b (inl c) = absurd (omega (arith, b))
  debug-round m (wait h n) b (inl c) = (refl, inl (ground arith))
  debug-round m (wait_wraps h n e) b (inl c) = absurd (ground arith)
  debug-round m (wait_overflows h n e) b (inl c) = (refl, inr (ground arith))
  debug-round m (see_invalid h) b (inl c) = absurd (omega (arith, b))
  debug-round m _ b (inl c) = absurd (ground arith)
  debug-round m (see_memory h) b (inr c) = absurd (ground arith)
  debug-round m _ b (inr c) = absurd (ground arith)

  release-round :
      {q q' : Pc T} {l' : Latch T} (m : ℕ)
      → Move release work l q l' q'
      → l.state ≡ loading
      → q ≡ ready (m % 256)
      → (l' ≡ l) × (q' ≡ ready (suc m % 256))
  release-round m (see_memory h) b c = absurd (omega (arith, b))
  release-round m (see_disk h) b c = absurd (omega (arith, b))
  release-round m (wait h n) b c = (refl, ground arith)
  release-round m (wait_wraps h n e) b c = (refl, ground arith)
  release-round m (wait_overflows h n e) b c = absurd (ground arith)
  release-round m (see_invalid h) b c = absurd (omega (arith, b))
  release-round m _ b c = absurd (ground arith)

module _ {T : Type 0} (work : ℕ → T → LoadResult T) (s : System T) (i n : ℕ)
    (busy : s.latch.state ≡ loading) (at : s.pc i ≡ ready n) (fits : n ≤ 255) where
  counts :
      {k : ℕ} {t : System T}
      → Solo debug work i s k t
      → (t.latch ≡ s.latch) × Counted (n + k) (t.pc i)
  counts begin = (refl, inl (ground arith))
  counts (round {k = k} {t = t} run mv) =
      let (same, c) = counts run in
      let next = debug-round (n + k) mv (ap (λ l. l.state) same ∙ busy) c in
      (next.0 ∙ same, ground (arith, next.1))

  one_more :
      {k : ℕ} (t : System T)
      → Solo debug work i s k t
      → suc (n + k) ≤ 256
      → (u : System T) × Solo debug work i s (suc k) u
  one_more {k} t run h =
      let (same, c) = counts run in
      let b : t.latch.state ≡ loading = ap (λ l. l.state) same ∙ busy in
      let here : t.pc i ≡ ready (n + k) = ground arith in
      elim (dec_lt (n + k) 255) [
        | yes less ↦ (_, round_at t run here (wait b less))
        | no last ↦ (_, round_at t run here (wait_overflows b (omega arith) refl))
      ]

  spins : (k : ℕ) → n + k ≤ 256 → (u : System T) × Solo debug work i s k u
  spins zero h = (s, begin)
  spins (suc k) h = let (t, run) = spins k (omega arith) in one_more t run (omega arith)

  -- In a debug build, in a state in which the latch says that a load runs, and a thread is at the head
  -- of the loop of `load` with the count `n`, up to 255: after any number `k` of steps of that thread alone the latch is
  -- as it was, and the thread is at the head of the loop with the count `n + k`, up to 255, or `n + k` is
  -- 256 and it has panicked. So it makes `256 - n` steps, and they lead to the panic.
  pub waiting-panics :
      {k : ℕ} {t : System T}
      → Solo debug work i s k t
      → (t.latch ≡ s.latch)
        × Counted (n + k) (t.pc i)
        × ((u : System T) × Solo debug work i s (256 - n) u × (u.pc i ≡ panicked))
  waiting-panics run =
      let (u, all) = spins (256 - n) (omega arith) in
      let last = counts all in ((counts run).0, (counts run).1, (u, all, ground arith))

  wraps :
      {k : ℕ} {t : System T}
      → Solo release work i s k t
      → (t.latch ≡ s.latch) × (t.pc i ≡ ready ((n + k) % 256))
  wraps begin = (refl, at ∙ ap ready (omega arith))
  wraps (round {k = k} {t = t} run mv) =
      let (same, c) = wraps run in
      let next = release-round (n + k) mv (ap (λ l. l.state) same ∙ busy) c in
      (next.0 ∙ same, ground (arith, next.1))

  turns_on : (k : ℕ) → (u : System T) × Solo release work i s k u
  turns_on zero = (s, begin)
  turns_on (suc k) =
      let (t, run) = turns_on k in
      let (same, c) = wraps run in
      let b : t.latch.state ≡ loading = ap (λ l. l.state) same ∙ busy in
      elim (dec_lt ((n + k) % 256) 255) [
        | yes less ↦ (_, round_at t run c (wait b less))
        | no last ↦ (_, round_at t run c (wait_wraps b (omega arith) refl))
      ]

  -- In a release build, in a state in which the latch says that a load runs, and a thread is at the head
  -- of the loop of `load` with the count `n`, up to 255: after any number `k` of steps of that thread alone
  -- the latch is as it was, and the thread is at the head of the loop with the count `n + k` modulo 256; and
  -- it can make any number `more` of steps alone. It never leaves the loop by itself.
  pub waiting-wraps :
      {k : ℕ} {t : System T} (more : ℕ)
      → Solo release work i s k t
      → (t.latch ≡ s.latch)
        × (t.pc i ≡ ready ((n + k) % 256))
        × ((u : System T) × Solo release work i s more u)
  waiting-wraps more run = let (same, c) = wraps run in (same, c, turns_on more)
