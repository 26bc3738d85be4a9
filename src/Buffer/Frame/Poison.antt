-- ===== src/Buffer/Frame/Poison.antt =====
-- A frame whose writer panicked, and what no call changes (src/buffer/page_frame.rs).
use ink_db.Base.{ℕ, ◌≡◌, refl, true, false, List, arith, if◌then◌else◌}
use ink_db.Mem.{RawPage}
use ink_db.Page.Kind.{PageKind, uses_slotted_page_layout}
use ink_db.Buffer.Frame.{
  PageFrame, ok, err, invalid_page_kind, guard, slotted_ref, slotted_mut, new, Access, Pc, idle,
  panicked, update, System, Step, Reach, here, later, IsInit, read_guard, read_unwrap, look,
  write_guard, write_access, write_panic, write_drop,
}
use ink_db.Buffer.Frame.Serial.{reached}

-- Between calls, or stopped.
abbrev pub IsOut : Pc → Type 0
IsOut idle = Unit
IsOut panicked = Unit
IsOut _ = ⊥

-- A poisoned frame that no thread has a guard of, with the page that it has for good.
record IsDead (page : RawPage) (f : PageFrame) (pc : ℕ → Pc) : Type 0 where
  poison : f.latch.poisoned ≡ true
  same : f.latch.page ≡ page
  out : (i : ℕ) → IsOut (pc i)

module _ {page : RawPage} {f : PageFrame} {pc : ℕ → Pc} {log : List (List Access)}
    (dead : IsDead page f pc) (i : ℕ) where
  open dead use {poison, same, out}

  Step-IsOut :
      {q q' : Pc} {f' : PageFrame} {log' : List (List Access)}
      → Step i f pc log q f' q' log'
      → pc i ≡ q
      → (j : ℕ) → IsOut (update pc i q' j)
  Step-IsOut (read_guard a b) e j = absurd (ground arith)
  Step-IsOut (read_unwrap a b) e j = ground (arith, out j)
  Step-IsOut (write_guard a b c) e j = absurd (ground arith)
  Step-IsOut look e j = absurd (ground (arith, out i))
  Step-IsOut _ e j = ground (arith, out j, out i)

  Step-same :
      {q q' : Pc} {f' : PageFrame} {log' : List (List Access)}
      → Step i f pc log q f' q' log'
      → pc i ≡ q
      → (f'.latch.poisoned ≡ true) × (f'.latch.page ≡ page)
  Step-same (read_guard a b) e = (poison, same)
  Step-same (write_guard a b c) e = absurd (ground arith)
  Step-same write_access e = absurd (ground (arith, out i))
  Step-same write_panic e = absurd (ground (arith, out i))
  Step-same write_drop e = absurd (ground (arith, out i))
  Step-same _ e = (poison, same)

Reach-IsDead :
    {page : RawPage} {s t : System}
    → IsDead page s.frame s.pc
    → Reach s t
    → IsDead page t.frame t.pc
Reach-IsDead dead here = dead
Reach-IsDead dead (later i r st) =
    let d = Reach-IsDead dead r in
    let kept = Step-same d i st refl in
    record { poison = kept.0; same = kept.1; out = Step-IsOut d i st refl }

-- When a writer's closure has panicked, in a state that threads reach from a new frame, no thread reads
-- or writes the page in any later state: it has panicked or is between calls, and the page stays as the
-- closure left it.
pub panicked_write-sticks :
    {checksum : ℕ} {kind : PageKind} {m : RawPage} {s t u : System}
    → IsInit checksum kind m s
    → Reach s t
    → t.frame.latch.poisoned ≡ true
    → Reach t u
    → (i : ℕ)
    → (u.frame.latch.poisoned ≡ true) × (u.frame.latch.page ≡ t.frame.latch.page) × IsOut (u.pc i)
panicked_write-sticks {t = t} h r bad c i =
    let inv = reached h r in
    let dead : IsDead t.frame.latch.page t.frame t.pc = record {
      poison = bad;
      same = refl;
      out = λ j. ground (arith, inv.fits j);
    } in
    let d = Reach-IsDead dead c in (d.poison, d.same, d.out i)

Step-fields :
    {i : ℕ} {f f' : PageFrame} {pc : ℕ → Pc} {log log' : List (List Access)} {q q' : Pc}
    → Step i f pc log q f' q' log'
    → (f'.kind ≡ f.kind) × (f'.checksum ≡ f.checksum) × (f'.dirty ≡ f.dirty) × (f'.pin ≡ f.pin)
Step-fields (read_guard a b) = (refl, refl, refl, refl)
Step-fields _ = (refl, refl, refl, refl)

Reach-fields :
    {s t : System}
    → Reach s t
    → (t.frame.kind ≡ s.frame.kind)
      × (t.frame.checksum ≡ s.frame.checksum)
      × (t.frame.dirty ≡ s.frame.dirty)
      × (t.frame.pin ≡ s.frame.pin)
Reach-fields here = (refl, refl, refl, refl)
Reach-fields (later i r st) = ground (arith, Reach-fields r, Step-fields st)

-- In every state that threads reach from a new frame, whatever they wrote, the frame is not dirty, has no
-- pin and its first checksum; and a guard gives a view as a slotted page, of the page that is there,
-- exactly if the kind that the frame was made with has that layout, whatever type the page has by now.
pub frame_fields :
    {checksum : ℕ} {kind : PageKind} {m : RawPage} {s t : System}
    → IsInit checksum kind m s
    → Reach s t
    → (t.frame.dirty ≡ false)
      × (t.frame.pin ≡ 0)
      × (t.frame.checksum ≡ checksum)
      × (slotted_ref (guard t.frame) ≡ (
          if uses_slotted_page_layout kind then ok t.frame.latch.page else err invalid_page_kind))
      × (slotted_mut (guard t.frame) ≡ (
          if uses_slotted_page_layout kind then ok t.frame.latch.page else err invalid_page_kind))
unfolding new guard slotted_ref slotted_mut
frame_fields h r = ground (arith, Reach-fields r, h.fresh)
