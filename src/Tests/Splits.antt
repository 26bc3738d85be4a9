-- ===== src/Tests/Splits.antt =====
-- The routes 10, 20, 30 split over two index pages at 20 (page/internal_page.rs).
use ink_db.Base.{◌≡◌, List, [], ◌∷◌, ◌++◌, ℕ, arith, refl, none}
use ink_db.Mem.{RawPage}
use ink_db.Outcome.{release, ok, ◌>>◌}
use ink_db.Index.Header.{init_in_place}
use ink_db.Index.Find.{lt_bytes, find_child_ptr}
use ink_db.Index.Layout.{IsIndexPage}
use ink_db.Index.Bulk.{Route, fill}
use ink_db.Index.Split.{make_linked, Splits, split-find}

abbrev blank : RawPage
blank i = 0

abbrev low : List Route
low = (10 ∷ [], 1) ∷ []

abbrev above : List Route
above = (30 ∷ [], 3) ∷ []

abbrev wanted : List ℕ
wanted = 25 ∷ []

split-find_example :
    (left right : RawPage) × (make_linked release 1
        (20 ∷ [], 0)
        (low ++ ((20 ∷ [], 2) ∷ []))
        9
        blank
      ≡ ok tt left)
    × ((init_in_place release 2 >> fill release above) blank ≡ ok tt right)
    × IsIndexPage left
    × IsIndexPage right
    × Splits release wanted (20 ∷ []) 9 (low ++ ((20 ∷ [], 2) ∷ above)) left right
    × (find_child_ptr release (20 ∷ []) left ≡ ok none left)
unfolding lt_bytes
split-find_example =
    split-find release 1 2 blank blank low above (20 ∷ []) wanted 2 0 9 (omega arith) (omega arith)
      (omega arith) (omega arith) (omega arith) (omega arith) (omega arith) (omega arith) (refl, tt)
      (λ e. absurd (ground arith))
