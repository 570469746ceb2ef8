-- ===== src/Reorder/Controller/Drag.antt =====
-- Every sequence of calls of the drag controller.
use quota_shift.Prelude.{
  ℕ, String, ◌≡◌, ◌≢◌, refl, ap, ◌∙◌, subst, Bool, true, false, not, ◌&&◌, Option, some, List, [],
  ◌∷◌, if◌then◌else◌, eq_iff, arith, Distinct, Option-cases, inl, inr,
}
use quota_shift.Reorder.{Doubles, SortableCardRect}
use quota_shift.Reorder.Permutation.{IsMoved, reorder_ids-IsMoved}
use quota_shift.Reorder.Controller.{
  PointerReorder, active_source, new_controller, begin, move, finish, finish_result, cancel,
  consume_click_suppression, differs, is_changed, reset_active, drag_to, move_active, with_rects,
}

-- The calls of the controller's methods that change its state.
pub data Call (F : Type 0) : Type 0 where
  begins :
      String → ℕ → F → F → List String → List (SortableCardRect F) → Option F → Option F → Call F
  moves : F → F → List (SortableCardRect F) → Call F
  finishes cancels consumes : Call F

differs_refl : (ids : List String) → differs ids ids ≡ false
unfolding differs
differs_refl [] = refl
differs_refl (id ∷ ids) = ground (arith, differs_refl ids, eq_iff id id)

-- Before the drag the preview is the order at its start; during the drag it is a move of the source card.
pub record IsDrag {F : Type 0} (c : PointerReorder F) : Type 0 where
  pub at_rest : c.dragging ≡ false → c.preview_ids ≡ c.original_ids
  pub busy :
      c.dragging ≡ true
      → (source : String) × (active_source c.source_id ≡ some source)
        × (Distinct c.original_ids → IsMoved source c.original_ids c.preview_ids)

module _ {F : Type 0} (ops : Doubles F) where
  unfoldable pub apply : Call F → PointerReorder F → PointerReorder F
  apply (begins source pointer x y ids rects grab_y grab_x) c =
      begin ops source pointer x y ids rects grab_y grab_x c
  apply (moves x y rects) c = move ops x y rects c
  apply finishes c = finish ops c
  apply cancels c = cancel ops c
  apply consumes c = consume_click_suppression ops c

  unfoldable pub run : List (Call F) → PointerReorder F → PointerReorder F
  unfolding apply
  run [] c = c
  run (call ∷ calls) c = run calls (apply call c)

  new-IsDrag : (threshold : F) → IsDrag (new_controller ops threshold)
  unfolding new_controller
  new-IsDrag threshold = record { at_rest = λ h. refl; busy = λ h. cc }

  drag_to-fields :
      (source : String) (x y : F) (rects : List (SortableCardRect F)) (c : PointerReorder F)
      → ((drag_to ops source x y rects c).dragging ≡ true)
        × ((drag_to ops source x y rects c).source_id ≡ c.source_id)
        × ((drag_to ops source x y rects c).original_ids ≡ c.original_ids)
  unfolding drag_to with_rects
  drag_to-fields source x y rects c = ground arith

  drag_to-IsMoved :
      (source : String) (x y : F) (rects : List (SortableCardRect F)) (c : PointerReorder F)
      → Distinct (drag_to ops source x y rects c).original_ids
      → IsMoved source
          (drag_to ops source x y rects c).original_ids
          (drag_to ops source x y rects c).preview_ids
  unfolding drag_to
  drag_to-IsMoved source x y rects c d = reorder_ids-IsMoved ops _ source _ y _ _ _ d

  drag_to-IsDrag :
      (source : String) (x y : F) (rects : List (SortableCardRect F)) (c : PointerReorder F)
      → active_source c.source_id ≡ some source
      → IsDrag (drag_to ops source x y rects c)
  drag_to-IsDrag source x y rects c h = record {
    at_rest = λ e. ground (arith, drag_to-fields source x y rects c);
    busy = λ e. (
      source,
      ap active_source (drag_to-fields source x y rects c).1 ∙ h,
      drag_to-IsMoved source x y rects c,
    );
  }

  move-IsDrag :
      (x y : F) (rects : List (SortableCardRect F)) (c : PointerReorder F)
      → IsDrag c
      → IsDrag (move ops x y rects c)
  unfolding move move_active
  move-IsDrag x y rects c h = elim (Option-cases (active_source c.source_id)) [
    | inl e ↦ rw (e, move) h
    | inr e ↦ rw (e.1, move) (ground (arith, h, drag_to-IsDrag e.0 x y rects c e.1))
  ]

  reset_active-IsDrag : (c : PointerReorder F) → IsDrag (reset_active ops c)
  unfolding reset_active
  reset_active-IsDrag c = record { at_rest = λ h. refl; busy = λ h. cc }

  consumed-IsDrag :
      (c : PointerReorder F) (b : Bool)
      → IsDrag c
      → IsDrag (if not b then c else record c { suppress_click = false })
  consumed-IsDrag c true h = record { at_rest = h.at_rest; busy = h.busy }
  consumed-IsDrag c false h = h

  apply-IsDrag : (call : Call F) (c : PointerReorder F) → IsDrag c → IsDrag (apply call c)
  unfolding apply begin finish cancel consume_click_suppression
  apply-IsDrag (begins source pointer x y ids rects grab_y grab_x) c h = record {
    at_rest = λ e. refl;
    busy = λ e. cc;
  }
  apply-IsDrag (moves x y rects) c h = move-IsDrag x y rects c h
  apply-IsDrag finishes c h =
      reset_active-IsDrag
        (if c.dragging && not c.cancelled then record c { suppress_click = true } else c)
  apply-IsDrag cancels c h = reset_active-IsDrag (record c { cancelled = true })
  apply-IsDrag consumes c h = consumed-IsDrag c c.suppress_click h

  pub run-IsDrag : (calls : List (Call F)) (c : PointerReorder F) → IsDrag c → IsDrag (run calls c)
  unfolding run
  run-IsDrag [] c h = h
  run-IsDrag (call ∷ calls) c h = run-IsDrag calls (apply call c) (apply-IsDrag call c h)

  changed-differs :
      (c : PointerReorder F) → is_changed ops c ≡ true → c.preview_ids ≢ c.original_ids
  unfolding is_changed
  changed-differs c h e =
      ground (arith, ap (λ ids. differs ids c.original_ids) e, differs_refl c.original_ids)

  committed :
      (c : PointerReorder F) (ids : List String)
      → (finish_result ops c).committed_ids ≡ some ids
      → (is_changed ops c ≡ true) × (c.dragging ≡ true) × (c.preview_ids ≡ ids)
  unfolding finish_result is_changed
  committed c ids h = ground arith

  -- After any sequence of calls on a new controller, where the order at the start of the drag has
  -- distinct ids: an order that `finish` would commit is not that one, and has the same ids with only
  -- the dragged card moved.
  pub finish-IsMoved :
      (threshold : F) (calls : List (Call F)) (ids : List String)
      → Distinct (run calls (new_controller ops threshold)).original_ids
      → (finish_result ops (run calls (new_controller ops threshold))).committed_ids ≡ some ids
      → (ids ≢ (run calls (new_controller ops threshold)).original_ids)
        × (source : String) × (active_source (run calls (new_controller ops threshold)).source_id
            ≡ some source)
        × IsMoved source (run calls (new_controller ops threshold)).original_ids ids
  unfolding finish_result is_changed
  finish-IsMoved threshold calls ids d h =
      let c = run calls (new_controller ops threshold) in
      let drag = run-IsDrag calls (new_controller ops threshold) (new-IsDrag threshold) in
      let done = committed c ids h in
      let dragged = drag.busy done.1 in
      (
        λ e. changed-differs c done.0 (done.2 ∙ e),
        dragged.0,
        dragged.1,
        subst (λ moved. IsMoved dragged.0 c.original_ids moved) done.2 (dragged.2 d),
      )
