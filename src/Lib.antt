-- ===== src/Lib.antt =====
-- The scheduling of taiga-back: dates of epics, user stories and tasks on a Gantt chart, the order of
-- their rows, the dependencies between them, and what a change of one does to the others. The code is
-- the Django application taiga/projects/schedule; its core is taiga/projects/schedule/services.py. With it
-- stand the parts of the program around it that keep state of their own: permissions, the orders that
-- users move, closing, votes, versions, slugs and references, transfers and due dates.
--
-- Parts, and how they interact
--   Model        the tables: taiga/projects/schedule/models.py (Schedule, ScheduleDependency,
--                ScheduleItemOrder), and of taiga/projects/{tasks,userstories,epics}/models.py the
--                fields that scheduling reads. `Database` holds all of them and the events sent.
--                Model/Outcome has the exceptions as values, with `>>=` for the sequence of calls.
--   Dates        effective starts and due dates, the bounds that children impose on their parents, and
--                the checks of a proposed date (_get_effective_start to
--                get_ancestor_dependency_start_violation_error). Dates/Required has the start that the
--                incoming dependencies demand; Dates/Shift and Dates/Expand compute the updates of
--                _shift_schedule_forward_to_start and _build_expand_bounds_updates.
--   ItemOrder    the positions of rows in a group, i.e. a project, a type and a parent: Keys (the group
--                of a schedule), Persist (_persist_group_positions), Move
--                (_move_order_item_between_groups and its callers), Clean (ScheduleItemOrder.clean),
--                Retry (the attempts at an operation). Writes, Indexes, Clearance, Listing, Safety and
--                Renumber hold the proof about the two-phase renumbering; Groups, Members, Arrange,
--                Transfer and Regroup the proofs about the moves.
--   Schedules    creation and update (upsert_schedule), deletion, and the calls of the item order from
--                the API: sync_schedule_item_order, set_schedule_item_order_position and the order of
--                an epic's user stories. Closing and Removal are about deletion, Stored about
--                upserts.
--   Dependencies ScheduleDependency.clean and its property project_id.
--   Propagation  Moves shifts one schedule; Chain is the work queue of
--                propagate_dependency_chain_forward_from_schedule; Bounds widens the user story and the
--                epic of an item. The two call each other. Keyed, Writes, Widening and Monotone hold
--                the proof about due dates.
--   Bulk         apply_schedule_dates_in_bulk: Request normalizes the entries, Lock finds the entities,
--                Apply writes and propagates, Validate checks the outcome, Emit sends the events, Run
--                is the whole. Latest, Sorted, Commit and Events hold the proofs.
--   Colors       the colour of an epic on the schedules of its user stories and tasks.
--   Signals      the handlers of taiga/projects/schedule/signals.py that saves and deletions of tasks,
--                user stories, epics and their relations run.
--   Api          taiga/projects/schedule/api.py: the access checks (Access), the list of dependencies,
--                the conditions on one and bulk_apply_dates (Links), and update_item (Items). An
--                `Account` is a user and the projects that there are; Api asks Permissions what the
--                user may do. Permitted and Listed are about whom the handlers let through.
--   Permissions  taiga/permissions/{choices,services}.py and the filter of visible projects in
--                taiga/base/filters.py.
--   OrderUpdates taiga/projects/services/bulk_update_order.py: Apply is apply_order_updates, Choices the
--                bulk updates of statuses, types and the like, Elements the callers of
--                apply_order_updates for user stories, tasks and epics. Maps, Shifts, Keeping, Rounds,
--                Sorting, Noted, Moved, Result, Rows and Written hold the proofs.
--   Closing      when a user story (taiga/projects/userstories/services.py) and a milestone
--                (taiga/projects/milestones/services.py) count as closed, and what that writes; Signals
--                has the handlers in taiga/projects/{userstories,tasks,issues}/signals.py, with the handler that
--                runs again when one of them saves the user story.
--   Votes        taiga/projects/votes/services.py; Interleaved has two removals at a time.
--   Occ          taiga/projects/occ/mixins.py, the version check before a save, which reads the history
--                (get_modified_fields).
--   Unique       taiga/base/utils/slug.py: Search is the loop, Slugs and Refs what it looks for, and
--                Free the proof that it ends.
--   Transfer     taiga/projects/services/transfer.py. Django's signer is a parameter: Handover names what
--                it is relied on for (`Signs`).
--   DueDates     taiga/projects/due_dates/serializers.py.
--   Base         names of the library, Boolean tests on numbers, and lists.
--   Tests        a project with an epic, a user story and two tasks, and the theorems applied to it.
--
-- How the state corresponds
--   - A table is a list of its rows in the order of their primary keys, and a query filters that list;
--     `first` is the query's first(). A queryset's update() rewrites the rows that it selects.
--   - A date is the ordinal of its day. The last date is 9999-12-31: where the source adds days to a date
--     (the day after a due date, and a duration after a start), the model raises `overflow_error` past it,
--     as Python does. A key is a number. Where the source tests `if not x.id`, the number 0 counts as no
--     key. The entity types are a data type, so assert_entity_type holds by typing; the empty parent type
--     of an item order is `none`.
--   - The outcome of Python's int() on a value of a request is an argument: `none` where it raises, and
--     a whole number otherwise.
--   - An exception is a value of `Error`, with the messages of validation as the type `Message`. An
--     error of a service returns no tables. The bulk request, the deletion of a schedule and the attempts
--     at an item order run in transaction.atomic and are rolled back. The requests as such are not in a
--     transaction: ATOMIC_REQUESTS stands at the top level of settings/common.py and not in DATABASES, where
--     Django reads it. So the steps of update_item commit one by one, and its `Outcome` has the tables of the
--     steps before the error. What the call that raises has itself written outside a transaction is not
--     modelled.
--   - The unique constraint of the item orders is checked after each statement.
--   - Writers that interfere show as attempts: a retried operation is a function of the number of the
--     attempt. For votes the interleaving of two removals is a definition of its own.
--   - A text is a list of code points. The base of a slug is the text that Django's slugify and unidecode
--     make of a value. A time is a number of seconds.
--   - A dictionary of orders is the list of its items, and orders are numbers from 0 on.
--
-- Bounds and fuel
--   - The propagation makes at most 10000 rounds, as the source does.
--   - The propagation and the widening call each other without a bound in the source. `depth` is the
--     depth that Python's stack leaves for these calls; at 0 the model raises `recursion_error`, as
--     Python does.
--   - An operation on the item orders is tried three times.
--   - The searches for a slug and for a reference have no bound in the source. They get one round more
--     than there are rows, and with those they find one.
--   - Every other loop runs over a list.
--
-- Not modelled
--   - The lists, validators, serializers and permission classes of the API, and its advisory locks.
--   - Tables that are missing (the handlers of ProgrammingError and OperationalError) and row locks.
--   - Mails, the signals that the saves of services and handlers send in their turn (but for the saves of
--     a user story in the closing handlers), the events of Closing and OrderUpdates, and the deletion of a
--     swimlane with its user stories.
--   - Versions of requests that are neither numbers nor texts, as far as Python turns them into numbers.
--   - The rest of the program: its other applications, the copy of Django REST framework under
--     taiga/base/api, history, notifications, import and export.
pub mod Base
pub mod Model
pub mod Dates
pub mod ItemOrder
pub mod Schedules
pub mod Propagation
pub mod Bulk
pub mod Colors
pub mod Signals
pub mod Closing
pub mod DueDates
pub mod Occ
pub mod OrderUpdates
pub mod Permissions
pub mod Transfer
pub mod Unique
pub mod Votes
pub mod Api
pub mod Dependencies
pub mod Tests
