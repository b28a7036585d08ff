-- ===== src/Tests/Program.antt =====
-- The functions that a run of a bulk request or of a propagation goes through, to be opened together.
use taiga_back_schedule_mana.Model.{get_schedule, get_primary_epic_relation}
use taiga_back_schedule_mana.Dates
use taiga_back_schedule_mana.ItemOrder
use taiga_back_schedule_mana.Schedules
use taiga_back_schedule_mana.Propagation
use taiga_back_schedule_mana.Bulk
use taiga_back_schedule_mana.Api
use taiga_back_schedule_mana.Permissions

unfoldable pub program : Unit {0}
unfolding Bulk.apply_schedule_dates_in_bulk Bulk.normalize_schedule_bulk_date_updates
    Bulk.normalize_from Bulk.normalize_update Bulk.parse_entity_type Bulk.parse_start_field
    Bulk.put_update Bulk.bulk_transaction Bulk.lock_schedule_bulk_entities Bulk.find_in_project
    Bulk.apply_schedule_bulk_updates Bulk.schedule_data Bulk.update_due_in_project Bulk.deduplicated
    Bulk.ensure_ancestors_of Bulk.ensure_all Bulk.propagate_all Bulk.sync_schedule_bulk_side_effects
    Bulk.build_schedule_validation_obj Bulk.validate_object Bulk.validate_schedule_bulk_updates
    Bulk.add_id Bulk.sorted_ids Bulk.schedule_bulk_change_events
    Bulk.emit_schedule_bulk_change_events Propagation.propagate_chain Propagation.propagate_from
    Propagation.propagate_loop Propagation.visit_targets Propagation.visit_target
    Propagation.after_shift Propagation.ensure_ancestor_bounds Propagation.ensure_by_type
    Propagation.ensure_userstory_and_epic_bounds_from_task
    Propagation.ensure_epic_bounds_for_userstory Propagation.expand_epic_bounds
    Propagation.expand_userstory_bounds Propagation.propagate_of
    Propagation.shift_schedule_forward_to_start Propagation.write_shift Schedules.upsert_schedule
    Schedules.upsert_row Schedules.update_schedule_row Schedules.get_or_create
    Schedules.sync_schedule_item_order Schedules.settle Schedules.update_entity_due_date
    ItemOrder.sync_item_order_for_schedule ItemOrder.move_order_item_between_groups
    ItemOrder.move_within_group ItemOrder.move_to_group ItemOrder.create_item_order
    ItemOrder.persist_group_positions ItemOrder.pending_updates ItemOrder.max_position
    ItemOrder.write_temporary ItemOrder.write_final ItemOrder.temporary_base_position
    ItemOrder.update_position ItemOrder.checked ItemOrder.is_unique ItemOrder.fetch_group_items
    ItemOrder.resolve_order_parent ItemOrder.run_with_retries ItemOrder.attempts
    ItemOrder.clean_item_order ItemOrder.clean_parent Dates.build_expand_bounds_updates
    Dates.start_updates Dates.extended_due Dates.shift_updates Dates.shifted_due
    Dates.starts_late_enough Dates.get_effective_start Dates.get_due_from_schedule_or_fallback
    Dates.get_required_start_from_incoming_dependencies Dates.required_start_from
    Dates.raise_required Dates.required_start_overflows Dates.any_at_end Dates.shift_overflows
    Dates.incoming_due_dates Dates.first_violation Dates.dependency_error
    Dates.get_dependency_start_violation_error Dates.get_dependency_violation_for_candidate_start
    Dates.expand_parent_start Dates.get_epic_dependency_violation Dates.task_ancestor_violation
    Dates.ancestor_violation Dates.get_ancestor_dependency_start_violation_error
    Dates.get_proposed_bounds_for_entity Dates.resolve_effective_start
    Dates.get_task_parent_userstory_id Dates.get_userstory_bounds_violation_error
    Dates.get_epic_bounds_violation_error Dates.get_task_children_bounds
    Dates.get_userstory_children_bounds Dates.task_dates Dates.userstory_dates Dates.children_bounds
    Dates.earliest Dates.latest Dates.get_schedule_map get_schedule get_primary_epic_relation
    Schedules.set_schedule_item_order_position ItemOrder.set_item_order_position_for_schedule
    Permissions.user_has_perm Permissions.get_user_project_permissions
    Permissions.calculate_permissions Permissions.get_user_project_membership
    Permissions.can_view_project Permissions.has Permissions.same_permission Permissions.code
    Api.user_can_view_schedule_pages Api.check_project_view Api.require Api.check_link_access
    Api.check_item_access Api.get_queryset Api.visible_project_ids Api.bulk_apply_dates
    Api.build_schedule_date_updates Api.apply_date_updates Api.update_schedule_item_from_data
program = tt
