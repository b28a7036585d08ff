-- ===== src/ItemOrder/Clean.antt =====
-- `ScheduleItemOrder.clean`, one of the checks that every `save` of a row runs (`full_clean`). The unique
-- constraints, which it runs too, are not here but where rows are written and created.
use taiga_back_schedule_mana.Base.{
  ◌≤◌, ◌≡◌, ◌↔◌, ◌⊎◌, Bool, ◌&&◌, not, none, some, ltb, ◌==◌, arith,
}
use taiga_back_schedule_mana.Model.{
  EntityType, epic, userstory, task, same_type, same_type_iff, Schedule, ScheduleItemOrder, Result,
  ok, validation_error, raise_if, ◌>>◌, order_project_mismatch, order_type_mismatch,
  position_not_positive, epic_needs_root, userstory_needs_epic_parent, task_needs_userstory_parent,
}
use taiga_back_schedule_mana.ItemOrder.Keys.{same_parent_type}

-- `is_root_parent`
abbrev pub is_root_parent : ScheduleItemOrder → Bool
is_root_parent r = same_parent_type r.parent_entity_type none && r.parent_entity_id == 0

-- The rules on the parent, by the type of the item.
unfoldable pub clean_parent : EntityType → ScheduleItemOrder → Result (Unit {0})
clean_parent epic r = raise_if (not (is_root_parent r)) (validation_error epic_needs_root)
clean_parent userstory r =
    raise_if (not (is_root_parent r) && not (same_parent_type r.parent_entity_type (some epic)))
      (validation_error userstory_needs_epic_parent)
clean_parent task r =
    raise_if
      (not (is_root_parent r) && not (same_parent_type r.parent_entity_type (some userstory)))
      (validation_error task_needs_userstory_parent)

unfoldable pub clean_item_order : Schedule → ScheduleItemOrder → Result (Unit {0})
clean_item_order s r = do
  raise_if (not (s.project_id == r.project_id)) (validation_error order_project_mismatch)
  raise_if (not (same_type s.entity_type r.entity_type)) (validation_error order_type_mismatch)
  raise_if (ltb r.position 1) (validation_error position_not_positive)
  clean_parent r.entity_type r

-- The parents that an item of each type may have.
abbrev pub MayStandUnder : EntityType → ScheduleItemOrder → Type 0
MayStandUnder epic r = (r.parent_entity_type ≡ none) × (r.parent_entity_id ≡ 0)
MayStandUnder userstory r =
    (r.parent_entity_type ≡ none) × (r.parent_entity_id ≡ 0) ⊎ (r.parent_entity_type ≡ some epic)
MayStandUnder task r =
    (r.parent_entity_type ≡ none) × (r.parent_entity_id ≡ 0)
    ⊎ (r.parent_entity_type ≡ some userstory)

-- `clean` accepts a row exactly when it has the project and the type of its schedule, its position is at
-- least 1, and its parent is the root, an epic for a user story, or a user story for a task.
pub clean_item_order_iff :
    (s : Schedule) (r : ScheduleItemOrder)
    → (clean_item_order s r ≡ ok tt) ↔ (
        (s.project_id ≡ r.project_id)
        × (s.entity_type ≡ r.entity_type)
        × (1 ≤ r.position)
        × MayStandUnder r.entity_type r)
unfolding clean_item_order clean_parent
clean_item_order_iff s r = ground (arith, same_type_iff s.entity_type r.entity_type)
