-- ===== src/Index/Api/Refines.antt =====
-- Sequences of calls on an index page against what the page promises (page/internal_page.rs).
use ink_db.Base.{ℕ, ◌^◌, ◌<◌, ◌≡◌, refl, ap, ap₂, ◌∙◌, List, [], ◌∷◌, All, arith}
use mathlib.Core.Path.{subst}
use ink_db.Mem.{RawPage}
use ink_db.Outcome.{Profile, ok}
use ink_db.Page.Kind.{index_internal, page_kind, page_sub_type}
use ink_db.Index.Header.{init_in_place}
use ink_db.Index.Fresh.{IsFreshIndex, init_in_place-IsFreshIndex}
use ink_db.Index.Api.{
  Call, Node, promise_all, perform, perform_all, node_of, IsNode, IsGood, Serves,
}
use ink_db.Index.Api.Steps.{view-eq, perform-Serves}

-- On a well-formed index page whose type is a byte, in either build, any sequence of the calls that add
-- cells, set the right sibling, the level and the type, search for a child, and ask for the sibling, the
-- kind and the level gives the replies, errors included, that the list of the cells, the free bytes, the
-- sibling, the kind and the level promise, and leaves a well-formed index page that is seen as what
-- they promise; if the cells have the layout of index cells, the siblings fit 64 bits and the levels
-- four.
pub perform_all-Serves :
    (p : Profile) (calls : List Call) (m : RawPage)
    → IsNode m
    → All IsGood calls
    → Serves (perform_all p calls m) (promise_all calls (node_of m))
perform_all-Serves p [] m x h = record { replies = refl; view = refl; node = x }
perform_all-Serves p (c ∷ calls) m x h =
    let one = perform-Serves x p c h.0 in
    let rest = perform_all-Serves p calls (perform p m c).1 one.node h.1 in
    record {
      replies =
          ap₂ (λ r rs. r ∷ rs) one.replies
            (rest.replies ∙ ap (λ t. (promise_all calls t).0) one.view);
      view = rest.view ∙ ap (λ t. (promise_all calls t).1) one.view;
      node = rest.node;
    }

-- What a new index page promises: no cell, 4056 free bytes, no sibling, an internal page of level 0.
abbrev pub empty_node : Node
empty_node = record {
  store = record { contents = []; free = 4056 };
  sibling = 0;
  kind = index_internal;
  level = 0;
}

fresh-IsNode : {lsn : ℕ} {m : RawPage} → IsFreshIndex lsn m → IsNode m × (node_of m ≡ empty_node)
unfolding page_kind page_sub_type
fresh-IsNode {m = m} x = (
  record { valid = x.valid; byte = omega (arith, x.type_byte) },
  view-eq m empty_node (ap₂ (λ cs n. record { contents = cs; free = n }) x.no_cells x.space)
      x.no_sibling (ap page_kind x.type_byte) (ap page_sub_type x.type_byte),
)

-- On any bytes, in either build, with an LSN that fits 64 bits, `init_in_place` returns a page on which any
-- sequence of the calls of an index page gives the replies, errors included, that
-- a page with no cell, 4056 free bytes, no sibling, the kind `IndexInternal` and the level 0
-- promises, and leaves a well-formed index page that is seen as what it promises; if
-- the cells have the layout of index cells, the siblings fit 64 bits and the levels four.
pub init_in_place-Serves :
    (p : Profile) (lsn : ℕ) (m : RawPage) (calls : List Call)
    → lsn < 2 ^ 64
    → All IsGood calls
    → (m1 : RawPage) × (init_in_place p lsn m ≡ ok tt m1)
      × Serves (perform_all p calls m1) (promise_all calls empty_node)
init_in_place-Serves p lsn m calls l h =
    let (m1, e, x) = init_in_place-IsFreshIndex p lsn m l in
    let (node, seen) = fresh-IsNode x in
    (
      m1,
      e,
      subst (λ s. Serves (perform_all p calls m1) (promise_all calls s)) seen
          (perform_all-Serves p calls m1 node h),
    )
