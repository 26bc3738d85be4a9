-- ===== src/Buffer/Frame/Progress.antt =====
-- Whether the threads of a frame block one another (src/buffer/page_frame.rs).
use ink_db.Base.{
  ℕ, ◌≡◌, ap, true, none, List, [], ◌∷◌, ◌++◌, ◌⊎◌, inl, inr, arith, Option-cases, Bool-cases,
}
use ink_db.Mem.{RawPage}
use ink_db.Page.Kind.{PageKind}
use ink_db.Buffer.Frame.{
  Latch, new, Access, Pc, idle, writing, panicked, System, Reach, here, later, IsInit, write_guard,
  write_unwrap,
}
use ink_db.Buffer.Frame.Poison.{IsOut}
use ink_db.Buffer.Frame.Settle.{Writes, Reach-Writes, Reach-Quiet, step_from, Settled, settle}

Reach-trans : {s t u : System} → Reach s t → Reach t u → Reach s u
Reach-trans r here = r
Reach-trans r (later i more st) = later i (Reach-trans r more) st

-- Where nobody writes, the latch names nobody.
writer-none : (l : Latch) (pc : ℕ → Pc) → Writes l pc → ((i : ℕ) → IsOut (pc i)) → l.writer ≡ none
writer-none l pc w out = elim (Option-cases l.writer) [
  | inl e ↦ e
  | inr (i, e) ↦ absurd (ground (arith, w i e, out i))
]

-- The thread has the lock for its closure, as the next writer, or its call has panicked on the poisoned
-- lock.
abbrev pub Served : ℕ → List Access → System → System → Type 0
Served i w t u =
    ((u.pc i ≡ writing w) × (u.log ≡ t.log ++ (w ∷ [])))
    ⊎ ((u.pc i ≡ panicked) × (u.frame.latch.poisoned ≡ true))

serve :
    (i : ℕ) (w : List Access) {s t : System} (c : Settled s t)
    → t.pc i ≡ idle
    → c.after.frame.latch.writer ≡ none
    → (u : System) × Reach s u × Served i w t u
serve i w c e free = elim (Bool-cases c.after.frame.latch.poisoned) [
  | inl bad ↦ (
    _,
    step_from c.after i (c.idles i e) c.run (write_unwrap free bad (λ j. ground (arith, c.out j))),
    inr (ground arith, bad),
  )
  | inr good ↦ (
    _,
    step_from c.after i (c.idles i e) c.run
        (write_guard {w = w} free good (λ j. ground (arith, c.out j))),
    inl (ground arith, ap (λ ws. ws ++ (w ∷ [])) c.log),
  )
]

-- In every state that threads reach from a new frame, whoever reads or writes, a thread that is between
-- calls can get the lock for any closure: some further steps, in which the others end their calls and no
-- other begins to write, lead to where it is the next writer, or, if a writer has panicked, to where
-- its call has.
pub write-Served :
    {checksum : ℕ} {kind : PageKind} {m : RawPage} {s t : System} (i : ℕ) (w : List Access)
    → IsInit checksum kind m s
    → Reach s t
    → t.pc i ≡ idle
    → (u : System) × Reach t u × Served i w t u
unfolding new
write-Served {s = s} {t = t} i w h r e =
    let (n, quiet) = Reach-Quiet (λ j l. ground (arith, h.begun j)) r in
    let c = settle n t here quiet in
    let none_first : Writes s.frame.latch s.pc = (λ j x. absurd (ground (arith, h.fresh))) in
    serve i w c e (
      writer-none c.after.frame.latch c.after.pc (Reach-Writes none_first (Reach-trans r c.run))
        c.out)
