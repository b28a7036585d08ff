-- ===== src/Propagation/Monotone.antt =====
-- The due dates of the schedules under a propagation as a whole.
use taiga_back_schedule_mana.Base.{
  ℕ, zero, suc, Option, ◌≡◌, refl, sym, subst, ◌&&◌, none, some, List, [], ◌∷◌, ◌==◌, Bool-cases,
  Option-cases, inl, inr, first, arith,
}
use taiga_back_schedule_mana.Model.{
  Date, Schedule, Database, Result, ok, err, recursion_error, overflow_error, raise_if, ◌>>=◌,
  ok-injective, >>=-eq-ok,
}
use taiga_back_schedule_mana.Dates.{
  find_schedule, compute_required_start, required_start_overflows,
  get_required_start_from_incoming_dependencies,
}
use taiga_back_schedule_mana.Propagation.Moves.{Shift, shift_schedule_forward_to_start}
use taiga_back_schedule_mana.Propagation.Chain.{
  Chain, Ensure, enqueue, after_shift, visit_target, visit_targets, without_id, outgoing_target_ids,
  propagate_loop, propagate_from, max_iterations,
}
use taiga_back_schedule_mana.Propagation.Bounds.{ensure_ancestor_bounds, propagate_chain}
use taiga_back_schedule_mana.Propagation.Keyed.{Keyed, Later, Step, Same-Step, Step-trans}
use taiga_back_schedule_mana.Propagation.Writes.{shift_schedule_forward_to_start-Step}
use taiga_back_schedule_mana.Propagation.Widening.{Steps, stay, ensure_ancestor_bounds-Steps}

module _ (ensure : Ensure) (h : (s : Schedule) → Steps (ensure s)) where
  after_shift-Step :
      (target : Schedule) (shift : Shift) (c c' : Chain)
      → Step c.db shift.db
      → after_shift ensure target shift c ≡ ok c'
      → Step c.db c'.db
  unfolding after_shift
  after_shift-Step target shift c c' step e = elim (Bool-cases (shift.moved && shift.due_changed)) [
    | inr quiet ↦
        subst (λ (x : Chain). Step c.db x.db) (ok-injective (rw (quiet, after_shift) at e)) step
    | inl changed ↦
        let (db', runs, same) =
          >>=-eq-ok (ensure target shift.db) _ (rw (changed, after_shift) at e) in
        let stepped = Step-trans c.db shift.db db' step.1 (h target shift.db db' step.0 runs) in
        subst (λ (x : Chain). Step c.db x.db) (ok-injective same)
          (enqueued target.id (record c { db = db' }) stepped)
  ]
    where
      enqueued : (i : ℕ) (d : Chain) → Step c.db d.db → Step c.db (enqueue i d).db
      enqueued i d s = ground arith

  visit_target-Step :
      (i : ℕ) (c c' : Chain) → Keyed c.db → visit_target ensure i c ≡ ok c' → Step c.db c'.db
  unfolding visit_target
  visit_target-Step i c c' k e = elim (Option-cases (find_schedule i c.db)) [
    | inl gone ↦ unmoved (rw (gone, visit_target) at e)
    | inr (target, found) ↦
        elim (Option-cases (get_required_start_from_incoming_dependencies target.id c.db)) [
          | inl free ↦ unmoved (rw free at (computed target found))
          | inr (required_start, required) ↦
              let (shift, runs, rest) =
                >>=-eq-ok (shift_schedule_forward_to_start (some target) (some required_start) c.db)
                  _ (rw required at (computed target found)) in
              after_shift-Step target shift c c'
                (shift_schedule_forward_to_start-Step target required_start c.db shift k
                  (subst (λ j. find_schedule j c.db ≡ some target)
                    (sym (key_of_found i target c.db.schedules found)) found)
                  runs)
                rest
        ]
  ]
    where
      after_required : Schedule → Option Date → Result Chain
      after_required target required = elim required [
        | none ↦ ok c
        | some required_start ↦ do
          shift ← shift_schedule_forward_to_start (some target) (some required_start) c.db
          after_shift ensure target shift c
      ]

      computed :
          (target : Schedule)
          → find_schedule i c.db ≡ some target
          → after_required target (get_required_start_from_incoming_dependencies target.id c.db)
            ≡ ok c'
      computed target found =
          let (required, computes, rest) =
            >>=-eq-ok (compute_required_start target.id c.db) (after_required target)
              (rw (found, visit_target) at e) in
          let (_, _, same) =
            >>=-eq-ok (raise_if (required_start_overflows target.id c.db) overflow_error) _
              computes in
          subst (λ o. after_required target o ≡ ok c') (sym (ok-injective same)) rest

      unmoved : ok c ≡ ok c' → Step c.db c'.db
      unmoved f =
          subst (λ (x : Chain). Step c.db x.db) (ok-injective f)
            (Same-Step c.db c.db k (refl, refl))

      key_of_found :
          (i : ℕ) (s : Schedule) (rows : List Schedule)
          → first (λ r. r.id == i) rows ≡ some s
          → s.id ≡ i
      key_of_found i s [] f = absurd (gone f)
        where
          gone : none ≡ some s → ⊥
          gone g = cc
      key_of_found i s (r ∷ rows) f = ground (arith, key_of_found i s rows)

  visit_targets-Step :
      (ids : List ℕ) (c c' : Chain)
      → Keyed c.db
      → visit_targets ensure ids c ≡ ok c'
      → Step c.db c'.db
  unfolding visit_targets
  visit_targets-Step [] c c' k e =
      subst (λ (x : Chain). Step c.db x.db) (ok-injective e) (Same-Step c.db c.db k (refl, refl))
  visit_targets-Step (i ∷ ids) c c' k e =
      let (mid, runs, rest) = >>=-eq-ok (visit_target ensure i c) (visit_targets ensure ids) e in
      let (k', moved) = visit_target-Step i c mid k runs in
      Step-trans c.db mid.db c'.db moved (visit_targets-Step ids mid c' k' rest)

  propagate_loop-Steps :
      (rounds : ℕ) (queue queued : List ℕ) → Steps (propagate_loop ensure rounds queue queued)
  unfolding propagate_loop
  propagate_loop-Steps zero queue queued db db' k e = stay db db' k e
  propagate_loop-Steps (suc rounds) [] queued db db' k e = stay db db' k e
  propagate_loop-Steps (suc rounds) (current ∷ queue) queued db db' k e =
      let start : Chain = record { queue = queue; queued = without_id current queued; db = db } in
      let (c, runs, rest) =
        >>=-eq-ok (visit_targets ensure (outgoing_target_ids ensure current db) start) _ e in
      let (k', moved) = visit_targets-Step (outgoing_target_ids ensure current db) start c k runs in
      Step-trans db c.db db' moved (propagate_loop-Steps rounds c.queue c.queued c.db db' k' rest)

  propagate_from-Steps : (i : ℕ) → Steps (propagate_from ensure i)
  unfolding propagate_from
  propagate_from-Steps i db db' k e = elim (Bool-cases (i == 0)) [
    | inl no_id ↦ stay db db' k (rw (no_id, propagate_from) at e)
    | inr saved ↦
        propagate_loop-Steps max_iterations (i ∷ []) (i ∷ []) db db' k
          (rw (saved, propagate_from) at e)
  ]

propagate_chain-Steps : (depth i : ℕ) → Steps (propagate_chain depth i)
unfolding propagate_chain
propagate_chain-Steps zero i = λ db db' k e. absurd (raised e)
  where
    raised : {db : Database} → err recursion_error ≡ ok db → ⊥
    raised f = cc
propagate_chain-Steps (suc depth) i =
    propagate_from-Steps (ensure_ancestor_bounds (propagate_chain depth))
      (ensure_ancestor_bounds-Steps (propagate_chain depth) (propagate_chain-Steps depth)) i

-- Where the keys of the schedules are different and behind the table's sequence, a propagation that
-- returns keeps them so, and every schedule that had a due date has one that is not earlier. This
-- holds through all the shifts, the widening of user stories and epics, and the propagations these
-- start in turn.
pub propagate_chain-NotEarlier :
    (depth schedule_id : ℕ) (db db' : Database)
    → Keyed db
    → propagate_chain depth schedule_id db ≡ ok db'
    → Keyed db' × Later db db'
propagate_chain-NotEarlier depth schedule_id db db' k e =
    propagate_chain-Steps depth schedule_id db db' k e
