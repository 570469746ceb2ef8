-- ===== src/Examples/Cards.antt =====
-- Orders of account cards at concrete inputs. Coordinates are natural numbers.
use quota_shift.Prelude.{
  ℕ, ◌+◌, ◌-◌, ◌*◌, ◌/◌, String, ◌≡◌, ◌≢◌, refl, none, some, List, [], ◌∷◌, ◌++◌, ltb, contains,
  get_by, if◌then◌else◌,
}
use quota_shift.Reorder.{Doubles, SortableCardRect, reorder_ids_at_pointer, reorder_items}
use quota_shift.Reorder.Permutation.{IsMoved, reorder_ids-IsMoved}
use quota_shift.Reorder.Sorting.{comes_after, sort_by_order_value}
use quota_shift.Reorder.Sorting.Placed.{placed, unplaced, sort_by_order-placed}
use quota_shift.Reorder.Items.{IsPlaced, reorder_items-IsPlaced}
use quota_shift.Reorder.Controller.{
  new_controller, finish_result, active_source, begin, move, differs,
}
use quota_shift.Reorder.Controller.Drag.{Call, begins, moves, run, finish-IsMoved}

abbrev ops : Doubles ℕ
ops = record {
  zero = 0;
  one = 1;
  two = 2;
  infinity = 1000000;
  less = ltb;
  add = ◌+◌;
  sub = λ a b. a - b;
  mul = ◌*◌;
  div = ◌/◌;
  max = λ a b. if ltb a b then b else a;
  hypot = ◌+◌;
}

abbrev rects : List (SortableCardRect ℕ)
rects =
    record { id = "a"; top = 0; bottom = 10; left = none; right = none }
    ∷ record { id = "b"; top = 10; bottom = 20; left = none; right = none }
    ∷ record { id = "c"; top = 20; bottom = 30; left = none; right = none }
    ∷ []

abbrev ids : List String
ids = "a" ∷ "b" ∷ "c" ∷ []

abbrev same : String → String
same s = s

reorder_test : reorder_ids_at_pointer ops ids "a" rects 28 (some 5) none none ≡ "b" ∷ "c" ∷ "a" ∷ []
unfolding reorder_ids_at_pointer contains get_by
reorder_test = refl

reorder_ids-IsMoved_example :
    IsMoved "a" ids (reorder_ids_at_pointer ops ids "a" rects 28 (some 5) none none)
unfolding contains
reorder_ids-IsMoved_example =
    reorder_ids-IsMoved ops ids "a" rects 28 (some 5) none none (refl, (refl, (refl, tt)))

abbrev drag : List (Call ℕ)
drag = begins "a" 1 3 5 ids rects none none ∷ moves 3 6 [] ∷ moves 3 28 [] ∷ []

finish-IsMoved_example :
    ("b" ∷ "c" ∷ "a" ∷ [] ≢ (run ops drag (new_controller ops 4)).original_ids)
    × (source : String) × (active_source (run ops drag (new_controller ops 4)).source_id
        ≡ some source)
    × IsMoved source (run ops drag (new_controller ops 4)).original_ids ("b" ∷ "c" ∷ "a" ∷ [])
unfolding run new_controller begin move reorder_ids_at_pointer contains get_by finish_result differs
    active_source
finish-IsMoved_example =
    finish-IsMoved ops 4 drag ("b" ∷ "c" ∷ "a" ∷ []) (refl, (refl, (refl, tt))) refl

sort_test : sort_by_order_value ids ("c" ∷ "a" ∷ "c" ∷ []) same ≡ "a" ∷ "c" ∷ "b" ∷ []
unfolding sort_by_order_value comes_after
sort_test = refl

sort_by_order-placed_example :
    sort_by_order_value ids ("c" ∷ "a" ∷ "c" ∷ []) same
    ≡ placed same ("c" ∷ "a" ∷ "c" ∷ []) ids ++ unplaced same ("c" ∷ "a" ∷ "c" ∷ []) ids
sort_by_order-placed_example = sort_by_order-placed ids ("c" ∷ "a" ∷ "c" ∷ []) same

reorder_items-IsPlaced_example : IsPlaced same ids "a" 2 (reorder_items same ids "a" "c")
unfolding contains
reorder_items-IsPlaced_example =
    reorder_items-IsPlaced same ids "a" "c" 0 2 (refl, (refl, (refl, tt))) refl refl refl
