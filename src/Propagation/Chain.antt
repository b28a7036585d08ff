-- ===== src/Propagation/Chain.antt =====
-- `propagate_dependency_chain_forward_from_schedule`, over what its loop calls for the ancestors of
-- a schedule. The loop ends after 10000 rounds, as in the source.
use taiga_back_schedule_mana.Base.{
  ℕ, zero, suc, ◌&&◌, not, none, some, List, [], ◌∷◌, ◌++◌, map, ◌==◌, keep, contains,
  if◌then◌else◌,
}
use taiga_back_schedule_mana.Model.{Schedule, Database, Result, ok, ◌>>=◌}
use taiga_back_schedule_mana.Dates.{find_schedule, compute_required_start}
use taiga_back_schedule_mana.Propagation.Moves.{Shift, shift_schedule_forward_to_start}

-- The variables of the loop: `queue`, the set `queued`, and the tables.
pub record Chain : Type 0 where
  pub queue : List ℕ
  pub queued : List ℕ
  pub db : Database

-- `_ensure_ancestor_bounds_for_dependency_target`, as the loop calls it.
abbrev pub Ensure : Type 0
Ensure = Schedule → Database → Result Database

abbrev pub without_id : ℕ → List ℕ → List ℕ
without_id i ids = keep (λ j. not (j == i)) ids

-- `if target_schedule.id not in queued: …`
abbrev pub enqueue : ℕ → Chain → Chain
enqueue i c =
    if contains i c.queued then c else record c { queue = c.queue ++ i ∷ []; queued = i ∷ c.queued }

module _ (ensure : Ensure) where
  -- What follows a shift: only a changed due date concerns others.
  unfoldable pub after_shift : Schedule → Shift → Chain → Result Chain
  after_shift target shift c =
      if shift.moved && shift.due_changed
      then (ensure target shift.db >>= λ db. ok (enqueue target.id (record c { db = db })))
      else ok (record c { db = shift.db })

  -- The body of the loop over the targets. The schedule object passed to `ensure` is read for its
  -- entity alone, which a shift does not change.
  unfoldable pub visit_target : ℕ → Chain → Result Chain
  visit_target target_id c = elim (find_schedule target_id c.db) [
    | none ↦ ok c
    | some target ↦ compute_required_start target.id c.db >>= λ required. elim required [
      | none ↦ ok c
      | some required_start ↦ do
        shift ← shift_schedule_forward_to_start (some target) (some required_start) c.db
        after_shift target shift c
    ]
  ]

  unfoldable pub visit_targets : List ℕ → Chain → Result Chain
  visit_targets [] c = ok c
  visit_targets (target_id ∷ rest) c = do c' ← visit_target target_id c; visit_targets rest c'

  abbrev pub outgoing_target_ids : ℕ → Database → List ℕ
  outgoing_target_ids schedule_id db =
      map (λ d. d.to_schedule_id) (keep (λ d. d.from_schedule_id == schedule_id) db.dependencies)

  -- The `while` loop, with `rounds` rounds left.
  unfoldable pub propagate_loop : ℕ → List ℕ → List ℕ → Database → Result Database
  propagate_loop zero queue queued db = ok db
  propagate_loop (suc rounds) [] queued db = ok db
  propagate_loop (suc rounds) (current ∷ queue) queued db = do
    c ←
        visit_targets (outgoing_target_ids current db)
          (record { queue = queue; queued = without_id current queued; db = db })
    propagate_loop rounds c.queue c.queued c.db

abbrev pub max_iterations : ℕ
max_iterations = 10000

-- The call for one schedule.
unfoldable pub propagate_from : Ensure → ℕ → Database → Result Database
propagate_from ensure schedule_id db =
    if schedule_id == 0
    then ok db
    else propagate_loop ensure max_iterations (schedule_id ∷ []) (schedule_id ∷ []) db
