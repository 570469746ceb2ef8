-- ===== src/Reorder.antt =====
-- Order of account cards: src/utils/account/account-order.ts, and the geometry of
-- src/utils/account/pointer-reorder.ts, which turns a pointer position into a new order.
pub mod Permutation
pub mod Sorting
pub mod Items
pub mod Controller
use quota_shift.Prelude.{
  ℕ, suc, String, Bool, true, false, not, ◌&&◌, ◌||◌, Option, none, some, List, [], ◌∷◌, filter,
  find, find_index, is_nil, all, map, length, ltb, contains, get_by, insert_at, remove_at,
  get_elem?, if◌then◌else◌, ◌==◌,
}

-- The double arithmetic of the source.
pub record Doubles (F : Type 0) : Type 0 where
  pub zero : F
  pub one : F
  pub two : F
  pub infinity : F
  pub less : F → F → Bool
  pub add : F → F → F
  pub sub : F → F → F
  pub mul : F → F → F
  pub div : F → F → F
  pub max : F → F → F
  pub hypot : F → F → F

pub record SortableCardRect (F : Type 0) : Type 0 where
  pub id : String
  pub top : F
  pub bottom : F
  pub left : Option F
  pub right : Option F

-- `id !== sourceId`
abbrev pub is_other : String → String → Bool
is_other source id = not (id == source)

module _ {ℓ} {A : Type ℓ} (id : A → String) where
  pub move_item : List A → Option ℕ → Option ℕ → List A
  move_item items (some source) (some target) = elim (get_elem? items source) [
    | none ↦ items
    | some moved ↦ insert_at (remove_at items source) target moved
  ]
  move_item items _ _ = items

  unfoldable pub reorder_items : List A → String → String → List A
  unfolding move_item
  reorder_items items source target =
      if source == target
      then items
      else move_item items (find_index (λ x. id x == source) items)
          (find_index (λ x. id x == target) items)

module _ {F : Type 0} (ops : Doubles F) where
  extent : F → F → F
  extent low high = ops.max ops.one (ops.sub high low)

  middle : F → F → F
  middle low high = ops.div (ops.add low high) ops.two

  -- The first index whose boundary lies beyond the value, or the number of boundaries.
  first_beyond : F → List F → ℕ
  first_beyond x [] = 0
  first_beyond x (b ∷ bs) = if ops.less x b then 0 else suc (first_beyond x bs)

  ordered_rects : List String → List (SortableCardRect F) → List (SortableCardRect F)
  ordered_rects [] rects = []
  ordered_rects (id ∷ ids) rects = elim (get_by (λ (r : SortableCardRect F). r.id) rects id) [
    | none ↦ ordered_rects ids rects
    | some r ↦ r ∷ ordered_rects ids rects
  ]

  has_sides : SortableCardRect F → Bool
  has_sides r = elim r.left [
    | none ↦ false
    | some _ ↦ elim r.right [ none ↦ false | some _ ↦ true ]
  ]

  dragged_center : F → Option F → Option (SortableCardRect F) → F
  dragged_center pointer none rect = pointer
  dragged_center pointer (some grab) none = pointer
  dragged_center pointer (some grab) (some r) =
      let height = extent r.top r.bottom in
      if ops.less ops.zero height
      then ops.add (ops.sub pointer grab) (ops.div height ops.two)
      else pointer

  dragged_center_x : F → Option F → F → F → F
  dragged_center_x pointer none left right = pointer
  dragged_center_x pointer (some grab) left right =
      ops.add (ops.sub pointer grab) (ops.div (extent left right) ops.two)

  distance : F → F → SortableCardRect F → F → F → F
  distance x y r left right =
      let dx = ops.div (ops.sub x (middle left right)) (extent left right) in
      let dy = ops.div (ops.sub y (middle r.top r.bottom)) (extent r.top r.bottom) in
      ops.add (ops.mul dx dx) (ops.mul dy dy)

  -- The loop over the cards; every card has its sides where it is called.
  nearest : F → F → List (SortableCardRect F) → ℕ → ℕ → F → ℕ
  nearest x y [] index best_slot best_distance = best_slot
  nearest x y (r ∷ rects) index best_slot best_distance = elim r.left [
    | none ↦ nearest x y rects (suc index) best_slot best_distance
    | some left ↦ elim r.right [
      | none ↦ nearest x y rects (suc index) best_slot best_distance
      | some right ↦
          let d = distance x y r left right in
          let closer = nearest x y rects (suc index) index d in
          let other = nearest x y rects (suc index) best_slot best_distance in
          if ops.less d best_distance then closer else other
    ]
  ]

  boundaries : List (SortableCardRect F) → List F
  boundaries [] = []
  boundaries (r ∷ []) = []
  boundaries (r ∷ s ∷ rects) =
      middle (middle r.top r.bottom) (middle s.top s.bottom) ∷ boundaries (s ∷ rects)

  insert_by_top : SortableCardRect F → List (SortableCardRect F) → List (SortableCardRect F)
  insert_by_top r [] = r ∷ []
  insert_by_top r (s ∷ rects) =
      let later = insert_by_top r rects in if ops.less s.top r.top then s ∷ later else r ∷ s ∷ rects

  sort_by_top : List (SortableCardRect F) → List (SortableCardRect F)
  sort_by_top [] = []
  sort_by_top (r ∷ rects) = insert_by_top r (sort_by_top rects)

  -- The slot where the source card has no rectangle, or fewer than two cards have one.
  slot_by_middle : List String → List (SortableCardRect F) → F → ℕ
  unfolding first_beyond sort_by_top insert_by_top middle
  slot_by_middle remaining rects center = first_beyond center (
      map (λ r. middle r.top r.bottom)
        (sort_by_top (filter (λ (r : SortableCardRect F). contains remaining r.id) rects)))

  slot_by_row : List (SortableCardRect F) → F → ℕ
  unfolding first_beyond boundaries
  slot_by_row ordered center = first_beyond center (boundaries ordered)

  slot_by_flow :
      List (SortableCardRect F) → F → Option F → Option F → Option F → Option F → Option ℕ
  unfolding nearest dragged_center_x distance has_sides
  slot_by_flow ordered center (some x) grab (some left) (some right) =
      if not (ltb (length ordered) 2) && all has_sides ordered
      then some (nearest (dragged_center_x x grab left right) center ordered 0 0 ops.infinity)
      else none
  slot_by_flow ordered center _ grab _ _ = none

  target_index :
      List String
      → List String
      → Option (SortableCardRect F)
      → List (SortableCardRect F)
      → F
      → Option F
      → Option F
      → ℕ
  unfolding slot_by_flow slot_by_row slot_by_middle
  target_index ids remaining none rects center x grab_x = slot_by_middle remaining rects center
  target_index ids remaining (some r) rects center x grab_x =
      let ordered = ordered_rects ids rects in
      elim (slot_by_flow ordered center x grab_x r.left r.right) [
        | some slot ↦ slot
        | none ↦
            if not (ltb (length ordered) 2)
            then slot_by_row ordered center
            else slot_by_middle remaining rects center
      ]

  unfoldable pub reorder_ids_at_pointer :
      List String
      → String
      → List (SortableCardRect F)
      → F
      → Option F
      → Option F
      → Option F
      → List String
  unfolding target_index dragged_center ordered_rects extent middle first_beyond boundaries
      insert_by_top sort_by_top nearest distance dragged_center_x has_sides slot_by_flow slot_by_row
      slot_by_middle
  reorder_ids_at_pointer ids source rects y grab_y x grab_x =
      if not (contains ids source) || ltb (length ids) 2
      then ids
      else let rect = find (λ (r : SortableCardRect F). r.id == source) rects in
        let remaining = filter (is_other source) ids in
        let target =
          target_index ids remaining rect rects (dragged_center y grab_y rect) x grab_x in
        insert_at remaining (if ltb target (length remaining) then target else length remaining)
          source
