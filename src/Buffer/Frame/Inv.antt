-- ===== src/Buffer/Frame/Inv.antt =====
-- The invariant of a frame under threads that read and write it (src/buffer/page_frame.rs).
use ink_db.Base.{ℕ, ◌≡◌, refl, false, none, some, List, [], ◌∷◌, ◌++◌, arith, All}
use ink_db.Mem.{RawPage}
use ink_db.Buffer.Frame.{
  Latch, PageFrame, guard, Access, Pc, reading, writing, update, Step, read_guard, read_unwrap,
  look, read_drop, read_panic, write_guard, write_unwrap, write_access, write_panic, write_drop,
  run, run_all,
}

-- What a thread knows of the latch, with the page `aim` that the writers make together: a reader has seen
-- only the page that is there; the rest of a writer's closure makes `aim` of it.
abbrev pub Local : ℕ → Latch → RawPage → Pc → Type 0
Local i l aim (reading n seen) =
    (l.writer ≡ none) × (l.poisoned ≡ false) × All (λ x. x ≡ l.page) seen
Local i l aim (writing rest) = (l.writer ≡ some i) × (l.poisoned ≡ false) × (run rest l.page ≡ aim)
Local i l aim _ = Unit

pub record Inv (aim : RawPage) (l : Latch) (pc : ℕ → Pc) : Type 0 where
  pub fits : (i : ℕ) → Local i l aim (pc i)
  pub free : l.writer ≡ none → l.poisoned ≡ false → l.page ≡ aim

run_all-append :
    (ws : List (List Access)) (w : List Access) (m : RawPage)
    → run_all (ws ++ (w ∷ [])) m ≡ run w (run_all ws m)
run_all-append [] w m = refl
run_all-append (v ∷ ws) w m = run_all-append ws w (run v m)

module _ (m : RawPage) {f : PageFrame} {pc : ℕ → Pc} {log : List (List Access)}
    (inv : Inv (run_all log m) f.latch pc) (i : ℕ) where
  open inv use {fits, free}

  Step-fits :
      {q q' : Pc} {f' : PageFrame} {log' : List (List Access)}
      → Step i f pc log q f' q' log'
      → pc i ≡ q
      → (j : ℕ) → Local j f'.latch (run_all log' m) (update pc i q' j)
  unfolding guard
  Step-fits (read_guard a b) e j = ground (arith, fits j)
  Step-fits (read_unwrap a b) e j = ground (arith, fits j)
  Step-fits look e j = ground (arith, fits j, fits i)
  Step-fits read_drop e j = ground (arith, fits j)
  Step-fits read_panic e j = ground (arith, fits j)
  Step-fits (write_guard {w = w} a b c) e j =
      ground (arith, fits j, c j, free a b, run_all-append log w m)
  Step-fits (write_unwrap a b c) e j = ground (arith, fits j)
  Step-fits write_access e j = ground (arith, fits j, fits i)
  Step-fits write_panic e j = ground (arith, fits j, fits i)
  Step-fits write_drop e j = ground (arith, fits j, fits i)

  Step-free :
      {q q' : Pc} {f' : PageFrame} {log' : List (List Access)}
      → Step i f pc log q f' q' log'
      → pc i ≡ q
      → f'.latch.writer ≡ none
      → f'.latch.poisoned ≡ false
      → f'.latch.page ≡ run_all log' m
  Step-free (read_guard a b) e x y = free x y
  Step-free (write_guard a b c) e x y = absurd (ground arith)
  Step-free write_access e x y = absurd (ground (arith, fits i))
  Step-free write_panic e x y = absurd (ground arith)
  Step-free write_drop e x y = ground (arith, fits i)
  Step-free _ e x y = free x y

  pub Step-Inv :
      {q' : Pc} {f' : PageFrame} {log' : List (List Access)}
      → Step i f pc log (pc i) f' q' log'
      → Inv (run_all log' m) f'.latch (update pc i q')
  Step-Inv st = record { fits = Step-fits st refl; free = Step-free st refl }
