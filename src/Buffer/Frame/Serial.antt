-- ===== src/Buffer/Frame/Serial.antt =====
-- What readers of a frame see, and what writers make of its page (src/buffer/page_frame.rs).
use mathlib.Core.Path.{subst}
use ink_db.Base.{ℕ, ◌≡◌, sym, false, none, List, [], ◌∷◌, arith, All}
use ink_db.Mem.{RawPage}
use ink_db.Page.Kind.{PageKind}
use ink_db.Buffer.Frame.{new, Access, reading, System, Reach, here, later, IsInit, run, run_all}
use ink_db.Buffer.Frame.Inv.{Local, Inv, Step-Inv}

Inv-init :
    {checksum : ℕ} {kind : PageKind} {m : RawPage} {s : System}
    → IsInit checksum kind m s
    → Inv (run_all s.log m) s.frame.latch s.pc
unfolding new
Inv-init h = record {
  fits = λ i. ground (arith, h.begun i);
  free = λ a b. ground (arith, h.fresh, h.empty);
}

Reach-Inv :
    (m : RawPage) {s t : System}
    → Inv (run_all s.log m) s.frame.latch s.pc
    → Reach s t
    → Inv (run_all t.log m) t.frame.latch t.pc
Reach-Inv m inv here = inv
Reach-Inv m inv (later i r st) = Step-Inv m (Reach-Inv m inv r) i st

pub reached :
    {checksum : ℕ} {kind : PageKind} {m : RawPage} {s t : System}
    → IsInit checksum kind m s
    → Reach s t
    → Inv (run_all t.log m) t.frame.latch t.pc
reached {m = m} h r = Reach-Inv m (Inv-init h) r

-- In every state that threads reach from a new frame, if no thread writes and no writer has panicked,
-- the page is what the closures of all writers make of the first page, each run by itself, in the order
-- in which they got the lock.
pub page-run_all :
    {checksum : ℕ} {kind : PageKind} {m : RawPage} {s t : System}
    → IsInit checksum kind m s
    → Reach s t
    → t.frame.latch.writer ≡ none
    → t.frame.latch.poisoned ≡ false
    → t.frame.latch.page ≡ run_all t.log m
page-run_all h r a b = (reached h r).free a b

-- A closure that keeps a property of pages when it runs by itself.
abbrev pub Keeps : (RawPage → Type 0) → List Access → Type 0
Keeps P w = (x : RawPage) → P x → P (run w x)

run_all-Keeps :
    (P : RawPage → Type 0) (ws : List (List Access)) (m : RawPage)
    → All (Keeps P) ws
    → P m
    → P (run_all ws m)
run_all-Keeps P [] m k h = h
run_all-Keeps P (w ∷ ws) m k h = run_all-Keeps P ws (run w m) k.1 (k.0 m h)

All-same :
    (P : RawPage → Type 0) (page : RawPage) (xs : List RawPage)
    → P page
    → All (λ x. x ≡ page) xs
    → All P xs
All-same P page [] h a = tt
All-same P page (x ∷ xs) h a = (subst P (sym a.0) h, All-same P page xs h a.1)

-- In every state that threads reach from a new frame: where each writer's closure keeps a property of
-- pages that the first page has, every page that a reader has seen under its guard has the property, also
-- if a closure breaks it on the way; and the pages are all the one that is there.
pub no_torn_read :
    {checksum : ℕ} {kind : PageKind} {m : RawPage} {s t : System} (P : RawPage → Type 0)
    → IsInit checksum kind m s
    → Reach s t
    → P m
    → All (Keeps P) t.log
    → (i n : ℕ) (seen : List RawPage) → t.pc i ≡ reading n seen
    → All P seen × All (λ x. x ≡ t.frame.latch.page) seen
no_torn_read {m = m} {t = t} P h r first k i n seen e =
    let inv = reached h r in
    let now : Local i t.frame.latch (run_all t.log m) (reading n seen) =
      subst (Local i t.frame.latch (run_all t.log m)) e (inv.fits i) in
    let there : P t.frame.latch.page =
      subst P (sym (inv.free now.0 now.1)) (run_all-Keeps P t.log m k first) in
    (All-same P t.frame.latch.page seen there now.2, now.2)
