-- ===== src/Tests/Nodes.antt =====
-- Calls on an index page, one after the other (page/internal_page.rs).
use ink_db.Base.{refl, ℕ_discrete, ◌≡◌, All, List, [], ◌∷◌, arith}
use ink_db.Mem.{RawPage}
use ink_db.Outcome.{release, ok}
use ink_db.Page.Kind.{index_leaf}
use ink_db.Index.Header.{init_in_place}
use ink_db.Index.Cell.{encode}
use ink_db.Index.Fresh.{init_in_place-IsFreshIndex}
use ink_db.Index.Api.{
  Call, append, put, link, raise, retype, find, next_page, has_next, ask_kind, ask_level,
  perform_all, promise_all, node_of, IsNode, IsGood, Serves,
}
use ink_db.Buffer.Frame.{
  new, guard, idle, System, Reach, here, later, IsInit, read_guard, look, write_guard, write_access,
  write_drop,
}
use ink_db.Buffer.Frame.Nodes.{accesses, serve_all, Answers, readers-Answers}
use ink_db.Index.Api.Refines.{empty_node, perform_all-Serves, init_in_place-Serves}

-- Two children are added, the page is linked, searched, raised and made a leaf; the last insertion is
-- past the end of the list.
abbrev calls : List Call
calls =
    append (encode (20 ∷ []) 2)
    ∷ put 0 (encode (10 ∷ []) 1)
    ∷ find (15 ∷ [])
    ∷ link 9
    ∷ find (15 ∷ [])
    ∷ raise 3
    ∷ ask_level
    ∷ retype index_leaf
    ∷ ask_kind
    ∷ next_page
    ∷ has_next
    ∷ put 7 (encode (30 ∷ []) 3)
    ∷ []

calls-IsGood : All IsGood calls
calls-IsGood = omega arith

abbrev blank : RawPage
blank i = 0

init_in_place-Serves_example :
    (m1 : RawPage) × (init_in_place release 5 blank ≡ ok tt m1)
    × Serves (perform_all release calls m1) (promise_all calls empty_node)
init_in_place-Serves_example = init_in_place-Serves release 5 blank calls (omega arith) calls-IsGood

start : (m : RawPage) × (init_in_place release 5 blank ≡ ok tt m) × IsNode m
start =
    let (m, e, x) = init_in_place-IsFreshIndex release 5 blank (omega arith) in
    (m, e, record { valid = x.valid; byte = omega (arith, x.type_byte) })

perform_all-Serves_example :
    Serves (perform_all release calls start.0) (promise_all calls (node_of start.0))
perform_all-Serves_example = perform_all-Serves release calls start.0 start.2 calls-IsGood

-- A frame with a new page: thread 1 adds two cells, thread 2 links the page, thread 3 reads it.
abbrev framed : System
framed = record { frame = new 10 index_leaf start.0; pc = λ i. idle; log = [] }

framed-IsInit : IsInit 10 index_leaf start.0 framed
framed-IsInit = record { fresh = refl; begun = λ i. refl; empty = refl }

abbrev first_calls : List Call
first_calls = append (encode (20 ∷ []) 2) ∷ put 0 (encode (10 ∷ []) 1) ∷ []

abbrev next_calls : List Call
next_calls = link 9 ∷ []

abbrev final : RawPage
final = (perform_all release next_calls (perform_all release first_calls start.0).1).1

read_after : (t : System) × Reach framed t
unfolding new ℕ_discrete
read_after = (
  _,
  later 3
      (later 3
        (later 2
          (later 2
            (later 2
              (later 1
                (later 1
                  (later 1
                    (later 1 here
                      (write_guard {w = accesses release first_calls} refl refl (λ j. refl)))
                    write_access)
                  write_access)
                write_drop)
              (write_guard {w = accesses release next_calls} refl refl (λ j. ground arith)))
            write_access)
          write_drop)
        (read_guard {n = 1} refl refl))
      look,
)

readers-Answers_example :
    All
      (Answers release (15 ∷ []) (serve_all (first_calls ∷ next_calls ∷ []) (node_of start.0)))
      (final ∷ [])
unfolding read_after new guard ℕ_discrete
readers-Answers_example =
    readers-Answers release (15 ∷ []) (first_calls ∷ next_calls ∷ []) framed-IsInit read_after.1
      start.2 (omega arith) refl 3 0 (final ∷ []) refl
