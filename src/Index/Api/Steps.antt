-- ===== src/Index/Api/Steps.antt =====
-- One call on an index page against what the page promises (page/internal_page.rs).
use ink_db.Base.{ℕ, zero, suc, ◌-◌, ◌^◌, ◌≤◌, ◌<◌, ◌≡◌, refl, ap, ap₂, ◌∙◌, List, [], ◌∷◌, arith}
use mathlib.Core.Path.{subst}
use ink_db.Mem.{RawPage}
use ink_db.Outcome.{Profile, Outcome, ok, err, fault}
use ink_db.Page
use ink_db.Page.{PageId}
use ink_db.Page.Kind.{PageKind, page_kind, page_sub_type, into_u8, set_subtype_page_bits}
use ink_db.Page.Kind.Laws.{
  page_type_fields, page_kind-low, page_sub_type-eq, set_subtype-eq, into_u8_fits, into_u8_parts,
}
use ink_db.Slotted.{PageError}
use ink_db.Slotted.Header.{get_page_type}
use ink_db.Slotted.Fields.{same_start, same_end, SameRest-cells}
use ink_db.Slotted.Layout.{cells}
use ink_db.Slotted.Refine
use ink_db.Slotted.Refine.{Store, store_of, Agrees, perform-Agrees, written}
use ink_db.Index.{IndexPageError}
use ink_db.Index.Header
use ink_db.Index.Header.{init_in_place, add_cell_append_slot_entry, add_cell_at_slot_entry_index}
use ink_db.Index.Ref
use ink_db.Slotted.Ref as SlottedRef
use ink_db.Index.Cell.Laws.{IsCell}
use ink_db.Index.Layout.{
  IsIndexPage, sibling, special_start, ref_has_right_sibling_lem, get_right_sibling_lem,
}
use ink_db.Index.Route.{route, find_child_ptr-route}
use ink_db.Index.Grow.{sibling-cong, converted}
use ink_db.Index.Level.{
  typed, typed-SameRest, get_page_type-typed, set_level_effect, set_page_type_effect,
}
use ink_db.Index.Link.{
  linked, cells-linked, sibling-linked, start-linked, end-linked, type-linked, linked-IsIndexPage,
  set_lem,
}
use ink_db.Index.Edit as Edits
use ink_db.Index.Edit.{edit, left, edit-IsIndexPage, SameRest-IsIndexPage}
use ink_db.Index.Api.{
  Call, append, put, link, raise, retype, find, next_page, has_next, ask_kind, ask_level, Reply,
  done, page, flag, number, Node, cell_reply, store_step, route_reply, promise, reply, level_reply,
  perform, node_of, IsNode, IsGood, Serves,
}

-- A page that is seen as a node.
pub view-eq :
    (m : RawPage) (s : Node)
    → store_of m ≡ s.store
    → sibling m ≡ s.sibling
    → page_kind (get_page_type m) ≡ s.kind
    → page_sub_type (get_page_type m) ≡ s.level
    → node_of m ≡ s
unfolding Header.kind
view-eq m s a b c d = λ t. record { store = a t; sibling = b t; kind = c t; level = d t }

-- What a method of the slotted page gives, as the index page passes it on.
reply-written :
    (m : RawPage) (out : Outcome PageError (Unit {0}))
    → reply (λ u. done) m (converted out) ≡ (cell_reply (written m out).0, (written m out).1)
unfolding converted
reply-written m (ok u m') = refl
reply-written m (err e m') = refl
reply-written m (fault x) = refl

left-reply :
    (m : RawPage) (out : Outcome IndexPageError (Unit {0}))
    → left m out ≡ (reply (λ u. done) m out).1
left-reply m (ok u m') = refl
left-reply m (err e m') = refl
left-reply m (fault x) = refl

module _ {m : RawPage} (x : IsNode m) where
  cells-Serves :
      (c : Refine.Call) (out : Outcome PageError (Unit {0}))
      → Agrees special_start m (written m out) (Refine.promise (store_of m) c)
      → IsIndexPage (left m (converted out))
      → Serves
          (reply (λ u. done) m (converted out))
          (store_step (node_of m) (Refine.promise (store_of m) c))
  unfolding get_page_type Header.kind
  cells-Serves c out a valid =
      let same : get_page_type (written m out).1 ≡ get_page_type m =
        a.header 10 (omega arith) (omega arith) in
      let there : left m (converted out) ≡ (written m out).1 =
        left-reply m (converted out) ∙ ap (λ r. r.1) (reply-written m out) in
      rw (reply-written m out) (record {
        replies = ap cell_reply a.replies;
        view =
            view-eq _ _ a.store (sibling-cong m _ a.rest) (ap page_kind same)
              (ap page_sub_type same);
        node = record { valid = subst IsIndexPage there valid; byte = rw same x.byte };
      })

  append-Serves :
      (p : Profile) (c : List ℕ)
      → IsCell c
      → Serves (perform p m (append c)) (promise (node_of m) (append c))
  unfolding add_cell_append_slot_entry converted edit
  append-Serves p c good =
      cells-Serves (Refine.append c) _ (perform-Agrees p m x.valid.slotted (Refine.append c))
        (edit-IsIndexPage p x.valid (Edits.append c) good)

  put-Serves :
      (p : Profile) (k : ℕ) (c : List ℕ)
      → IsCell c
      → Serves (perform p m (put k c)) (promise (node_of m) (put k c))
  unfolding add_cell_at_slot_entry_index converted edit
  put-Serves p k c good =
      cells-Serves (Refine.put k c) _ (perform-Agrees p m x.valid.slotted (Refine.put k c))
        (edit-IsIndexPage p x.valid (Edits.put k c) good)

  link-Serves :
      (p : Profile) (id : PageId)
      → id < 2 ^ 64
      → Serves (perform p m (link id)) (promise (node_of m) (link id))
  unfolding Header.kind
  link-Serves p id h =
      let same = type-linked x.valid id in
      rw (set_lem x.valid id p) (record {
        replies = refl;
        view =
            view-eq (linked x.valid id) _
              (ap₂ (λ cs n. record { contents = cs; free = n }) (cells-linked x.valid id)
                (ap₂ ◌-◌ (end-linked x.valid id) (start-linked x.valid id)))
              (sibling-linked x.valid id h) (ap page_kind same) (ap page_sub_type same);
        node = record { valid = linked-IsIndexPage x.valid id; byte = rw same x.byte };
      })

  -- A write of the type.
  typed-Serves :
      (p : Profile) (b : ℕ) (k : PageKind) (lvl : ℕ)
      → b < 256
      → page_kind b ≡ k
      → page_sub_type b ≡ lvl
      → Serves {R = Reply} (done, typed b m) (done, record (node_of m) { kind = k; level = lvl })
  typed-Serves p b k lvl h e f =
      let same = typed-SameRest b m in
      let now = get_page_type-typed b m in
      record {
        replies = refl;
        view =
            view-eq (typed b m) _
              (ap₂ (λ cs n. record { contents = cs; free = n })
                (SameRest-cells same x.valid.slotted) (ap₂ ◌-◌ (same_end same) (same_start same)))
              (sibling-cong m _ (λ j l. (same j).1 (omega arith))) (ap page_kind now ∙ e)
              (ap page_sub_type now ∙ f);
        node = record { valid = SameRest-IsIndexPage p x.valid same; byte = rw now h };
      }

  raise-Serves :
      (p : Profile) (lvl : ℕ)
      → lvl ≤ 15
      → Serves (perform p m (raise lvl)) (promise (node_of m) (raise lvl))
  unfolding Header.kind
  raise-Serves p lvl h =
      let t : ℕ = get_page_type m in
      let f = page_type_fields t 0 lvl x.byte (omega arith) (omega arith) in
      let b : ℕ = set_subtype_page_bits t lvl in
      rw (set_level_effect lvl m) (
        typed-Serves p b (page_kind t) lvl (omega (arith, set_subtype-eq t lvl x.byte))
          (page_kind-low b t f.4) (omega (arith, f.5)))

  retype-Serves :
      (p : Profile) (k : PageKind)
      → Serves (perform p m (retype k)) (promise (node_of m) (retype k))
  retype-Serves p k =
      rw (set_page_type_effect k m)
        (typed-Serves p (into_u8 k) k 0 (into_u8_fits k).0 (into_u8_parts k).0 (into_u8_parts k).1)

  unchanged : (r : Reply) {out : Reply × RawPage} → out ≡ (r, m) → Serves out (r, node_of m)
  unchanged r e = rw e (record { replies = refl; view = refl; node = x })

  routed :
      (key : List ℕ) (s : PageId) (cs : List (List ℕ))
      → reply page m (route key s cs m) ≡ (route_reply key s cs, m)
  unfolding route
  routed key zero cs = refl
  routed key (suc s) [] = refl
  routed key (suc s) (c ∷ cs) = refl

  level_there : level_reply (Ref.level m) ≡ number (page_sub_type (get_page_type m))
  unfolding Ref.level Page.index_level get_page_type SlottedRef.get_page_type
  level_there = ground (arith, page_sub_type-eq (get_page_type m) x.byte, x.byte)

  pub perform-Serves :
      (p : Profile) (c : Call) → IsGood c → Serves (perform p m c) (promise (node_of m) c)
  unfolding Ref.kind Header.kind get_page_type SlottedRef.get_page_type
  perform-Serves p (append c) good = append-Serves p c good
  perform-Serves p (put k c) good = put-Serves p k c good
  perform-Serves p (link id) good = link-Serves p id good
  perform-Serves p (raise lvl) good = raise-Serves p lvl good
  perform-Serves p (retype k) good = retype-Serves p k
  perform-Serves p (find key) good =
      unchanged _
        (ap (reply page m) (find_child_ptr-route p key x.valid) ∙ routed key (sibling m) (cells m))
  perform-Serves p next_page good =
      unchanged _ (ap (reply page m) (get_right_sibling_lem p m x.valid.special))
  perform-Serves p has_next good =
      unchanged _ (ap (reply flag m) (ref_has_right_sibling_lem p m x.valid.special))
  perform-Serves p ask_kind good = unchanged _ refl
  perform-Serves p ask_level good = unchanged _ (ap (λ r. (r, m)) level_there)
