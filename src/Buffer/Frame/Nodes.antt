-- ===== src/Buffer/Frame/Nodes.antt =====
-- Index pages in frames (src/buffer/page_frame.rs with src/page/internal_page.rs): what the calls of all
-- writers make of the page together, and what a reader finds there.
use ink_db.Base.{ℕ, ◌≡◌, refl, sym, ap, ◌∙◌, List, [], ◌∷◌, All, map}
use mathlib.Core.Path.{subst}
use ink_db.Mem.{RawPage}
use ink_db.Outcome.{Profile}
use ink_db.Page.Kind.{PageKind}
use ink_db.Buffer.Frame.{Access, change, reading, System, Reach, IsInit, run, run_all}
use ink_db.Buffer.Frame.Inv.{Local}
use ink_db.Buffer.Frame.Serial.{reached}
use ink_db.Index.Api.{
  Call, find, Node, promise, promise_all, perform, perform_all, node_of, IsNode, IsGood,
}
use ink_db.Index.Api.Steps.{perform-Serves}
use ink_db.Index.Api.Refines.{perform_all-Serves}

-- the accesses of a closure that makes some calls
abbrev pub accesses : Profile → List Call → List Access
accesses p calls = map (λ c. change (λ m. (perform p m c).1)) calls

-- What the calls of one writer after the other make of a node.
abbrev pub serve_all : List (List Call) → Node → Node
serve_all [] s = s
serve_all (calls ∷ writers) s = serve_all writers (promise_all calls s).1

run-accesses :
    (p : Profile) (calls : List Call) (m : RawPage)
    → run (accesses p calls) m ≡ (perform_all p calls m).1
run-accesses p [] m = refl
run-accesses p (c ∷ calls) m = run-accesses p calls (perform p m c).1

-- A page that is seen as the node.
abbrev pub Shows : Node → RawPage → Type 0
Shows s x = IsNode x × (node_of x ≡ s)

run_all-Shows :
    (p : Profile) (writers : List (List Call)) (m : RawPage)
    → IsNode m
    → All (All IsGood) writers
    → Shows (serve_all writers (node_of m)) (run_all (map (accesses p) writers) m)
run_all-Shows p [] m x h = (x, refl)
run_all-Shows p (calls ∷ writers) m x h =
    let one = perform_all-Serves p calls m x h.0 in
    let more = run_all-Shows p writers (perform_all p calls m).1 one.node h.1 in
    subst
      (λ y. Shows (serve_all (calls ∷ writers) (node_of m)) (run_all (map (accesses p) writers) y))
      (sym (run-accesses p calls m)) (more.0, more.1 ∙ ap (serve_all writers) one.view)

-- What a search finds on a page is what the node promises.
abbrev pub Answers : Profile → List ℕ → Node → RawPage → Type 0
Answers p key s x = Shows s x × ((perform p x (find key)).0 ≡ (promise s (find key)).0)

All-Answers :
    (p : Profile) (key : List ℕ) (s : Node) (page : RawPage) (xs : List RawPage)
    → Shows s page
    → All (λ x. x ≡ page) xs
    → All (Answers p key s) xs
All-Answers p key s page [] h e = tt
All-Answers p key s page (x ∷ xs) h e =
    let here = subst (Shows s) (sym e.0) h in
    (
      (
        here,
        (perform-Serves here.0 p (find key) tt).replies ∙ ap (λ n. (promise n (find key)).0) here.1,
      ),
      All-Answers p key s page xs h e.1,
    )

-- In every state that threads reach from a new frame with a well-formed index page, where the closure of
-- each writer makes calls that change index pages: every page that a reader has seen under its guard is a
-- well-formed index page, which is seen as what the calls of the writers promise, one writer after the
-- other as they got the lock, from the first page; and a search there gives what that promises.
pub readers-Answers :
    {checksum : ℕ} {kind : PageKind} {m : RawPage} {s t : System} (p : Profile) (key : List ℕ)
    (writers : List (List Call))
    → IsInit checksum kind m s
    → Reach s t
    → IsNode m
    → All (All IsGood) writers
    → t.log ≡ map (accesses p) writers
    → (i n : ℕ) (seen : List RawPage) → t.pc i ≡ reading n seen
    → All (Answers p key (serve_all writers (node_of m))) seen
readers-Answers {m = m} {t = t} p key writers h r x good e i n seen pc =
    let inv = reached h r in
    let now : Local i t.frame.latch (run_all t.log m) (reading n seen) =
      subst (Local i t.frame.latch (run_all t.log m)) pc (inv.fits i) in
    let there : t.frame.latch.page ≡ run_all (map (accesses p) writers) m =
      inv.free now.0 now.1 ∙ ap (λ ws. run_all ws m) e in
    let shown =
      subst (Shows (serve_all writers (node_of m))) (sym there)
        (run_all-Shows p writers m x good) in
    All-Answers p key (serve_all writers (node_of m)) t.frame.latch.page seen shown now.2
