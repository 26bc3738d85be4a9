-- ===== src/Latch/Alone.antt =====
-- A thread of the latch that runs alone (src/buffer/page_table_latch.rs): where no closure fails it
-- returns, from each place of `load`.
use ink_db.Base.{ℕ, ◌≡◌, ◌≢◌, refl, ◌∙◌, true, ◌⊎◌, inl, inr, arith}
use ink_db.Outcome.{Profile}
use ink_db.Latch.{
  LoadResult, ok, on_disk, loading, in_memory, Latch, Pc, ready, reading, trying, taking, working,
  storing, publishing, returned, owns, update, System, pick, Reach, here, Move, see_memory,
  see_disk, copy, cas_win, cas_lose, take, finish, write, publish,
}
use ink_db.Latch.Stall.{prepend}

-- A closure that never fails.
abbrev pub Succeeds : {T : Type 0} → (T → LoadResult T) → Type 0
Succeeds {T} work = (x : T) → (v : T) × (work x ≡ ok v)

-- A thread's steps, one after the other, with no other thread's between them.
pub data Alone {T : Type 0} (p : Profile) (work : T → LoadResult T)
    : Latch T → Pc T → Latch T → Pc T → Type 0 where
  rest : {l : Latch T} {q : Pc T} → Alone p work l q l q
  step :
      {l l1 l2 : Latch T} {q q1 q2 : Pc T}
      → Move p work l q l1 q1
      → Alone p work l1 q1 l2 q2
      → Alone p work l q l2 q2

-- A state that is reached by a thread's steps alone, which leave the other threads where they are.
pub record Lifts {T : Type 0} (p : Profile) (work : ℕ → T → LoadResult T) (i : ℕ) (s : System T)
    (l : Latch T) (q : Pc T) : Type 0 where
  pub pc : ℕ → Pc T
  pub run : Reach p work s (record { latch = l; pc = pc })
  pub at : pc i ≡ q
  pub others : (j : ℕ) → i ≢ j → pc j ≡ s.pc j

module _ {T : Type 0} {p : Profile} {work : ℕ → T → LoadResult T} (i : ℕ) where
  pub lift :
      {l l' : Latch T} {q q' : Pc T} (pc : ℕ → Pc T)
      → pc i ≡ q
      → Alone p (work i) l q l' q'
      → Lifts p work i (record { latch = l; pc = pc }) l' q'
  lift pc e rest = record { pc = pc; run = here; at = e; others = λ j n. refl }
  lift pc e (step {q1 = q1} mv more) =
      let next = lift (update pc i q1) (ground arith) more in
      record {
        pc = next.pc;
        run = prepend (pick i (rw e mv)) next.run;
        at = next.at;
        others = λ j n. next.others j n ∙ ground arith;
      }

-- How a thread returns that runs alone: the data is in memory then.
pub record Returns {T : Type 0} (p : Profile) (work : T → LoadResult T) (l : Latch T) (q : Pc T)
    : Type 0 where
  pub value : T
  pub after : Latch T
  pub loaded : after.state ≡ in_memory
  pub steps : Alone p work l q after (returned (ok value))

module _ {T : Type 0} {p : Profile} {work : T → LoadResult T} where
  first :
      {l l' : Latch T} {q q' : Pc T}
      → Move p work l q l' q'
      → Returns p work l' q'
      → Returns p work l q
  first mv r = record {
    value = r.value;
    after = r.after;
    loaded = r.loaded;
    steps = step mv r.steps;
  }

  from_returned : (l : Latch T) (v : T) → l.state ≡ in_memory → Returns p work l (returned (ok v))
  from_returned l v e = record { value = v; after = l; loaded = e; steps = rest }

  pub from_reading : (l : Latch T) → l.state ≡ in_memory → Returns p work l reading
  from_reading l e = first copy (from_returned l l.datum e)

module _ {T : Type 0} {p : Profile} {work : T → LoadResult T} (good : Succeeds work) where
  from_storing : (l : Latch T) (v : T) → Returns p work l (storing v)
  from_storing l v =
      first write (first publish (from_returned (record { state = in_memory; datum = v }) v refl))

  from_working : (l : Latch T) (x : T) → Returns p work l (working x)
  from_working l x = let (v, e) = good x in first (finish e) (from_storing l v)

  from_taking : (l : Latch T) → Returns p work l taking
  from_taking l = first take (from_working l l.datum)

  pub from_owner : (l : Latch T) (q : Pc T) → owns q ≡ true → Returns p work l q
  from_owner l taking o = from_taking l
  from_owner l (working x) o = from_working l x
  from_owner l (storing v) o = from_storing l v
  from_owner l (publishing v) o =
      first publish (from_returned (record l { state = in_memory }) v refl)
  from_owner l _ o = absurd (ground arith)

  from_trying_disk : (l : Latch T) (n : ℕ) → l.state ≡ on_disk → Returns p work l (trying n)
  from_trying_disk l n e = first (cas_win e) (from_taking (record l { state = loading }))

  pub from_ready :
      (l : Latch T) (n : ℕ)
      → (l.state ≡ on_disk) ⊎ (l.state ≡ in_memory)
      → Returns p work l (ready n)
  from_ready l n (inl e) = first (see_disk e) (from_trying_disk l n e)
  from_ready l n (inr e) = first (see_memory e) (from_reading l e)

  pub from_trying :
      (l : Latch T) (n : ℕ)
      → (l.state ≡ on_disk) ⊎ (l.state ≡ in_memory)
      → Returns p work l (trying n)
  from_trying l n (inl e) = from_trying_disk l n e
  from_trying l n (inr e) = first (cas_lose (omega arith)) (from_ready l n (inr e))
