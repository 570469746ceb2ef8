-- ===== src/Reorder/Controller.antt =====
-- `PointerReorderController` of src/utils/account/pointer-reorder.ts: a drag of one card.
pub mod Drag
use quota_shift.Prelude.{
  ℕ, String, Bool, true, false, not, ◌&&◌, ◌||◌, Option, none, some, List, [], ◌∷◌, find, is_nil,
  length, eqb, if◌then◌else◌, ◌==◌,
}
use quota_shift.Js.{is_empty}
use quota_shift.Reorder.{Doubles, SortableCardRect, reorder_ids_at_pointer}

pub record PointerReorder (F : Type 0) : Type 0 where
  pub threshold : F
  pub source_id : Option String
  pub pointer_id : Option ℕ
  pub start_x : F
  pub start_y : F
  pub grab_offset_y : Option F
  pub grab_offset_x : Option F
  pub dragging : Bool
  pub original_ids : List String
  pub preview_ids : List String
  pub initial_rects : List (SortableCardRect F)
  pub suppress_click : Bool
  pub cancelled : Bool

pub record PointerReorderUpdate : Type 0 where
  pub dragging : Bool
  pub ids : List String
  pub source_id : Option String

pub record PointerReorderFinish : Type 0 where
  pub committed_ids : Option (List String)
  pub source_id : Option String

-- `previewIds.some((id, index) => id !== originalIds[index])`
unfoldable pub differs : List String → List String → Bool
differs [] originals = false
differs (id ∷ ids) [] = true
differs (id ∷ ids) (original ∷ originals) = not (id == original) || differs ids originals

-- `sourceId`, where it is truthy
unfoldable pub active_source : Option String → Option String
active_source none = none
active_source (some id) = if is_empty id then none else some id

module _ {F : Type 0} (ops : Doubles F) where
  unfoldable pub new_controller : F → PointerReorder F
  new_controller threshold = record {
    threshold = threshold;
    source_id = none;
    pointer_id = none;
    start_x = ops.zero;
    start_y = ops.zero;
    grab_offset_y = none;
    grab_offset_x = none;
    dragging = false;
    original_ids = [];
    preview_ids = [];
    initial_rects = [];
    suppress_click = false;
    cancelled = false;
  }

  rect_of : String → List (SortableCardRect F) → Option (SortableCardRect F)
  rect_of id rects = find (λ (r : SortableCardRect F). r.id == id) rects

  -- The grab offset that is given, or the one from the card's edge.
  offset_y : Option F → F → Option (SortableCardRect F) → Option F
  offset_y (some grab) y rect = some grab
  offset_y none y none = none
  offset_y none y (some r) = some (ops.sub y r.top)

  offset_x : Option F → F → Option (SortableCardRect F) → Option F
  offset_x (some grab) x rect = some grab
  offset_x none x none = none
  offset_x none x (some r) = elim r.left [ none ↦ none | some left ↦ some (ops.sub x left) ]

  -- Rectangles that are not given are the empty list: every use treats them alike.
  unfoldable pub begin :
      String
      → ℕ
      → F
      → F
      → List String
      → List (SortableCardRect F)
      → Option F
      → Option F
      → PointerReorder F
      → PointerReorder F
  unfolding offset_y offset_x rect_of
  begin source pointer x y ids rects grab_y grab_x c = record c {
    source_id = some source;
    pointer_id = some pointer;
    start_x = x;
    start_y = y;
    dragging = false;
    original_ids = ids;
    preview_ids = ids;
    cancelled = false;
    initial_rects = rects;
    grab_offset_y = offset_y grab_y y (rect_of source rects);
    grab_offset_x = offset_x grab_x x (rect_of source rects);
  }

  unfoldable pub owns_pointer : ℕ → PointerReorder F → Bool
  owns_pointer pointer c = elim c.pointer_id [ none ↦ false | some p ↦ eqb p pointer ]

  -- The rectangles of a first move, where `begin` got none.
  with_rects : String → List (SortableCardRect F) → PointerReorder F → PointerReorder F
  unfolding offset_y offset_x rect_of
  with_rects source rects c =
      if is_nil c.initial_rects && not (is_nil rects)
      then record c {
        initial_rects = rects;
        grab_offset_y = offset_y c.grab_offset_y c.start_y (rect_of source rects);
        grab_offset_x = offset_x c.grab_offset_x c.start_x (rect_of source rects);
      }
      else c

  drag_to : String → F → F → List (SortableCardRect F) → PointerReorder F → PointerReorder F
  unfolding with_rects
  drag_to source x y rects c =
      let d = with_rects source rects (record c { dragging = true }) in
      let active = if is_nil d.initial_rects then rects else d.initial_rects in
      record d {
        preview_ids =
            reorder_ids_at_pointer ops d.original_ids source active y d.grab_offset_y (some x)
              d.grab_offset_x;
      }

  move_active : String → F → F → List (SortableCardRect F) → PointerReorder F → PointerReorder F
  unfolding drag_to
  move_active source x y rects c =
      if not c.dragging
        && ops.less (ops.hypot (ops.sub x c.start_x) (ops.sub y c.start_y)) c.threshold
      then c
      else drag_to source x y rects c

  unfoldable pub move : F → F → List (SortableCardRect F) → PointerReorder F → PointerReorder F
  unfolding move_active drag_to with_rects offset_y offset_x rect_of
  move x y rects c = elim (active_source c.source_id) [
    | none ↦ c
    | some source ↦ if c.cancelled then c else move_active source x y rects c
  ]

  -- What `move` returns, from the state after it.
  unfoldable pub update_of : PointerReorder F → PointerReorderUpdate
  update_of c = elim (active_source c.source_id) [
    | none ↦ record { dragging = false; ids = c.preview_ids; source_id = none }
    | some source ↦
        if c.cancelled
        then record { dragging = false; ids = c.preview_ids; source_id = none }
        else record { dragging = c.dragging; ids = c.preview_ids; source_id = some source }
  ]

  unfoldable pub reset_active : PointerReorder F → PointerReorder F
  reset_active c = record c {
    source_id = none;
    pointer_id = none;
    dragging = false;
    original_ids = [];
    preview_ids = [];
    initial_rects = [];
    grab_offset_y = none;
    grab_offset_x = none;
  }

  unfoldable pub is_changed : PointerReorder F → Bool
  is_changed c =
      c.dragging
      && not c.cancelled
      && eqb (length c.preview_ids) (length c.original_ids)
      && differs c.preview_ids c.original_ids

  unfoldable pub finish_result : PointerReorder F → PointerReorderFinish
  unfolding is_changed
  finish_result c = record {
    committed_ids = if is_changed c then some c.preview_ids else none;
    source_id = c.source_id;
  }

  unfoldable pub finish : PointerReorder F → PointerReorder F
  unfolding reset_active
  finish c =
      reset_active (if c.dragging && not c.cancelled then record c { suppress_click = true } else c)

  unfoldable pub cancel : PointerReorder F → PointerReorder F
  unfolding reset_active
  cancel c = reset_active (record c { cancelled = true })

  -- `consumeClickSuppression` returns `c.suppressClick`.
  unfoldable pub consume_click_suppression : PointerReorder F → PointerReorder F
  consume_click_suppression c =
      if not c.suppress_click then c else record c { suppress_click = false }
