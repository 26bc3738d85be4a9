-- ===== src/Buffer/Frame/Settle.antt =====
-- How the threads of a frame end their calls, one after the other (src/buffer/page_frame.rs).
use ink_db.Base.{
  ℕ, zero, suc, ◌+◌, ◌≤◌, ◌≡◌, ◌≢◌, refl, sym, ◌∙◌, Bool, true, false, some, List, [], ◌∷◌, arith,
  ℕ_discrete,
}
use mathlib.Core.Path.{subst}
use ink_db.Buffer.Frame.{
  Latch, PageFrame, Access, change, crash, Pc, idle, reading, writing, panicked, update, System,
  Step, Reach, here, later, read_guard, read_unwrap, look, read_drop, read_panic, write_guard,
  write_unwrap, write_access, write_panic, write_drop,
}
use ink_db.Buffer.Frame.Poison.{IsOut}

abbrev pub is_writing : Pc → Bool
is_writing (writing rest) = true
is_writing _ = false

-- The thread that the latch names is writing.
abbrev pub Writes : Latch → (ℕ → Pc) → Type 0
Writes l pc = (i : ℕ) → l.writer ≡ some i → is_writing (pc i) ≡ true

Step-Writes :
    {i : ℕ} {f f' : PageFrame} {pc : ℕ → Pc} {log log' : List (List Access)} {q q' : Pc}
    → Step i f pc log q f' q' log'
    → pc i ≡ q
    → Writes f.latch pc
    → Writes f'.latch (update pc i q')
Step-Writes (read_guard a b) e w j h = absurd (ground arith)
Step-Writes (read_unwrap a b) e w j h = absurd (ground arith)
Step-Writes look e w j h = ground (arith, w j h)
Step-Writes read_drop e w j h = ground (arith, w j h)
Step-Writes read_panic e w j h = ground (arith, w j h)
Step-Writes (write_guard a b c) e w j h = ground arith
Step-Writes (write_unwrap a b c) e w j h = absurd (ground arith)
Step-Writes write_access e w j h = ground (arith, w j h)
Step-Writes write_panic e w j h = absurd (ground arith)
Step-Writes write_drop e w j h = absurd (ground arith)

pub Reach-Writes :
    {s t : System} → Writes s.frame.latch s.pc → Reach s t → Writes t.frame.latch t.pc
Reach-Writes w here = w
Reach-Writes w (later i r st) = Step-Writes st refl (Reach-Writes w r)

-- From the thread `n` on, each is between calls or has panicked.
abbrev pub Quiet : ℕ → (ℕ → Pc) → Type 0
Quiet n pc = (j : ℕ) → n ≤ j → IsOut (pc j)

pub Reach-Quiet : {s t : System} → Quiet 0 s.pc → Reach s t → (n : ℕ) × Quiet n t.pc
Reach-Quiet q here = (0, q)
Reach-Quiet q (later i r st) =
    let (n, more) = Reach-Quiet q r in (suc (n + i), λ j h. ground (arith, more j))

-- The step of a thread that stands at `q`.
pub step_from :
    {s : System} (t : System) (i : ℕ) {q q' : Pc} {f : PageFrame} {log : List (List Access)}
    → t.pc i ≡ q
    → Reach s t
    → Step i t.frame t.pc t.log q f q' log
    → Reach s (record { frame = f; pc = update t.pc i q'; log = log })
step_from t i {q' = q'} {f = f} {log = log} e r st =
    later i r (subst (λ q. Step i t.frame t.pc t.log q f q' log) (sym e) st)

-- A state that is reached by steps of the thread `i` alone, which is then between calls or has panicked
-- and has begun no call.
record Ends (i : ℕ) (s t : System) : Type 0 where
  after : System
  run : Reach s after
  out : IsOut (after.pc i)
  idles : t.pc i ≡ idle → after.pc i ≡ idle
  others : (j : ℕ) → i ≢ j → after.pc j ≡ t.pc j
  log : after.log ≡ t.log

writer-Ends :
    (i : ℕ) (rest : List Access) {s : System} (t : System)
    → Reach s t
    → t.pc i ≡ writing rest
    → Ends i s t
writer-Ends i [] t r e = record {
  after = _;
  run = step_from t i e r write_drop;
  out = ground arith;
  idles = λ h. absurd (ground arith);
  others = λ j n. ground arith;
  log = refl;
}
writer-Ends i (crash ∷ rest) t r e = record {
  after = _;
  run = step_from t i e r write_panic;
  out = ground arith;
  idles = λ h. absurd (ground arith);
  others = λ j n. ground arith;
  log = refl;
}
writer-Ends i (change g ∷ rest) t r e =
    let next = writer-Ends i rest _ (step_from t i e r write_access) (ground arith) in
    record {
      after = next.after;
      run = next.run;
      out = next.out;
      idles = λ h. absurd (ground arith);
      others = λ j n. next.others j n ∙ ground arith;
      log = next.log;
    }

thread-Ends : (i : ℕ) (q : Pc) {s : System} (t : System) → Reach s t → t.pc i ≡ q → Ends i s t
thread-Ends i (writing rest) t r e = writer-Ends i rest t r e
thread-Ends i (reading n seen) t r e = record {
  after = _;
  run = step_from t i e r read_drop;
  out = ground arith;
  idles = λ h. absurd (ground arith);
  others = λ j n. ground arith;
  log = refl;
}
thread-Ends i idle t r e = record {
  after = t;
  run = r;
  out = ground arith;
  idles = λ h. h;
  others = λ j n. refl;
  log = refl;
}
thread-Ends i panicked t r e = record {
  after = t;
  run = r;
  out = ground arith;
  idles = λ h. h;
  others = λ j n. refl;
  log = refl;
}

module _ {n : ℕ} {s : System} (t : System) (one : Ends n s t) where
  quieter : Quiet (suc n) t.pc → Quiet n one.after.pc
  quieter quiet j h = elim (ℕ_discrete n j) [
    | yes same ↦ subst (λ k. IsOut (one.after.pc k)) same one.out
    | no other ↦ rw (one.others j other) (quiet j (omega arith))
  ]

  still_idle : (j : ℕ) → t.pc j ≡ idle → one.after.pc j ≡ idle
  still_idle j h = elim (ℕ_discrete n j) [
    | yes same ↦
        subst (λ k. one.after.pc k ≡ idle) same
          (one.idles (subst (λ k. t.pc k ≡ idle) (sym same) h))
    | no other ↦ one.others j other ∙ h
  ]

-- A state in which no thread is in a call; those that were between calls still are, and no write has
-- begun since.
pub record Settled (s t : System) : Type 0 where
  pub after : System
  pub run : Reach s after
  pub out : (i : ℕ) → IsOut (after.pc i)
  pub idles : (i : ℕ) → t.pc i ≡ idle → after.pc i ≡ idle
  pub log : after.log ≡ t.log

-- The threads before the `n`th end one after the other.
pub settle : (n : ℕ) {s : System} (t : System) → Reach s t → Quiet n t.pc → Settled s t
settle zero t r quiet = record {
  after = t;
  run = r;
  out = λ i. quiet i (omega arith);
  idles = λ i h. h;
  log = refl;
}
settle (suc n) t r quiet =
    let one = thread-Ends n (t.pc n) t r refl in
    let all = settle n one.after one.run (quieter t one quiet) in
    record {
      after = all.after;
      run = all.run;
      out = all.out;
      idles = λ i h. all.idles i (still_idle t one i h);
      log = all.log ∙ one.log;
    }
