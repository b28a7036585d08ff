-- ===== src/ItemOrder/Keys.antt =====
-- The groups of siblings, and the rows of one group.
use taiga_back_schedule_mana.Base.{
  ℕ, Bool, true, false, ◌&&◌, ◌||◌, Option, none, some, List, ltb, leb, ◌==◌, keep, sort_by,
  if◌then◌else◌,
}
use taiga_back_schedule_mana.Model.{
  EntityType, epic, userstory, task, same_type, ScheduleItemOrder, Database, find_task,
  get_primary_epic_relation,
}

-- (project_id, entity_type, parent_entity_type, parent_entity_id)
abbrev pub GroupKey : Type 0
GroupKey = ℕ × EntityType × Option EntityType × ℕ

abbrev pub same_parent_type : Option EntityType → Option EntityType → Bool
same_parent_type none none = true
same_parent_type none (some b) = false
same_parent_type (some a) none = false
same_parent_type (some a) (some b) = same_type a b

abbrev pub same_key : GroupKey → GroupKey → Bool
same_key (p, t, pt, pid) (p', t', pt', pid') =
    p == p' && (same_type t t' && (same_parent_type pt pt' && pid == pid'))

-- `_build_order_group_key` on the fields of a row. Its conversions change nothing at these types.
abbrev pub build_order_group_key : ℕ → EntityType → Option EntityType → ℕ → GroupKey
build_order_group_key project_id entity_type parent_entity_type parent_entity_id =
    (project_id, entity_type, parent_entity_type, parent_entity_id)

abbrev pub key_of : ScheduleItemOrder → GroupKey
key_of r = build_order_group_key r.project_id r.entity_type r.parent_entity_type r.parent_entity_id

-- `_resolve_order_parent`
unfoldable pub resolve_order_parent : EntityType → ℕ → Database → Option EntityType × ℕ
resolve_order_parent epic entity_id db = (none, 0)
resolve_order_parent userstory entity_id db = elim (get_primary_epic_relation entity_id db) [
  | none ↦ (none, 0)
  | some r ↦ if r.epic_id == 0 then (none, 0) else (some epic, r.epic_id)
]
resolve_order_parent task entity_id db = elim (find_task entity_id db) [
  | none ↦ (none, 0)
  | some t ↦ elim t.user_story_id [
    | none ↦ (none, 0)
    | some us ↦ if us == 0 then (none, 0) else (some userstory, us)
  ]
]

-- `.order_by("position", "id")`
abbrev pub position_before : ScheduleItemOrder → ScheduleItemOrder → Bool
position_before r s = ltb r.position s.position || (r.position == s.position && leb r.id s.id)

abbrev pub in_group : GroupKey → ScheduleItemOrder → Bool
in_group key r = same_key (key_of r) key

-- `_build_order_group_filters` and `_fetch_group_items_for_update`
unfoldable pub fetch_group_items : GroupKey → List ScheduleItemOrder → List ScheduleItemOrder
fetch_group_items key rows = sort_by position_before (keep (in_group key) rows)
