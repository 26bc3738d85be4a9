-- ===== src/Buffer/Frame/Pages.antt =====
-- Index pages in frames (src/buffer/page_frame.rs with src/page/internal_page.rs): threads that edit the
-- page of a frame while others search it.
use ink_db.Base.{ℕ, ◌≡◌, sym, List, [], ◌∷◌, All, map}
use mathlib.Core.Path.{subst}
use ink_db.Mem.{RawPage}
use ink_db.Outcome.{Profile}
use ink_db.Page.Kind.{PageKind}
use ink_db.Slotted.Layout.{cells}
use ink_db.Index.Edit.{Edit, IsGood, edit, edit-IsIndexPage}
use ink_db.Index.Find.{find_child_ptr}
use ink_db.Index.Layout.{IsIndexPage, sibling}
use ink_db.Index.Route.{route, find_child_ptr-route}
use ink_db.Buffer.Frame.{Access, change, reading, System, Reach, IsInit}
use ink_db.Buffer.Frame.Serial.{Keeps, no_torn_read}

-- the accesses of a closure that makes some edits
abbrev pub edits : Profile → List Edit → List Access
edits p es = map (λ e. change (edit p e)) es

abbrev pub IsEditing : Profile → List Access → Type 0
IsEditing p w = (es : List Edit) × All IsGood es × (w ≡ edits p es)

run-edits : (p : Profile) (es : List Edit) → All IsGood es → Keeps IsIndexPage (edits p es)
run-edits p [] good x h = h
run-edits p (e ∷ es) good x h = run-edits p es good.1 (edit p e x) (edit-IsIndexPage p h e good.0)

log-Keeps :
    (p : Profile) (log : List (List Access)) → All (IsEditing p) log → All (Keeps IsIndexPage) log
log-Keeps p [] h = tt
log-Keeps p (w ∷ ws) h =
    let (es, good, e) = h.0 in
    (subst (Keeps IsIndexPage) (sym e) (run-edits p es good), log-Keeps p ws h.1)

-- What a search finds on a page.
abbrev pub Searched : Profile → List ℕ → RawPage → Type 0
Searched p key x = IsIndexPage x × (find_child_ptr p key x ≡ route key (sibling x) (cells x) x)

All-Searched :
    (p : Profile) (key : List ℕ) (xs : List RawPage) → All IsIndexPage xs → All (Searched p key) xs
All-Searched p key [] h = tt
All-Searched p key (x ∷ xs) h = ((h.0, find_child_ptr-route p key h.0), All-Searched p key xs h.1)

-- In every state that threads reach from a new frame with a well-formed index page, where the closures of
-- the writers add cells, set right siblings and set levels, every page that a reader has seen under its guard is a
-- well-formed index page, on which the search for a child routes the key by its sibling and its cells.
pub readers-find :
    {checksum : ℕ} {kind : PageKind} {m : RawPage} {s t : System} (p : Profile) (key : List ℕ)
    → IsInit checksum kind m s
    → Reach s t
    → IsIndexPage m
    → All (IsEditing p) t.log
    → (i n : ℕ) (seen : List RawPage) → t.pc i ≡ reading n seen
    → All (Searched p key) seen
readers-find {t = t} p key h r first k i n seen e =
    All-Searched p key seen (no_torn_read IsIndexPage h r first (log-Keeps p t.log k) i n seen e).0
