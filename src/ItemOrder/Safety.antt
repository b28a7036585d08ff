-- ===== src/ItemOrder/Safety.antt =====
-- The writes of `_persist_group_positions`, one after the other.
use taiga_back_schedule_mana.Base.{
  ℕ, ◌+◌, ◌<◌, ◌≡◌, ◌≢◌, refl, ap, fun_ext, List, [], ◌∷◌, ◌==◌, ==_iff, Bool-cases, inl, inr, All,
  All-map, arith,
}
use taiga_back_schedule_mana.Model.{ScheduleItemOrder, ◌>>=◌}
use taiga_back_schedule_mana.ItemOrder.Keys.{GroupKey, key_of}
use taiga_back_schedule_mana.ItemOrder.Persist.{
  set_position, placed, update_position, write_temporary, write_final,
}
use taiga_back_schedule_mana.ItemOrder.Writes.{write_all, Safe}
use taiga_back_schedule_mana.ItemOrder.Indexes.{temporary_writes, final_writes}
use taiga_back_schedule_mana.ItemOrder.Clearance.{Clear, Ascending}

pub write_temporary-all :
    (p : ℕ) (pending : List (ScheduleItemOrder × ℕ)) (rows : List ScheduleItemOrder)
    → write_temporary p pending rows ≡ write_all (temporary_writes p pending) rows
unfolding write_temporary write_all
write_temporary-all p [] rows = refl
write_temporary-all p ((item, index) ∷ pending) rows =
    ap (λ k. update_position item.id p rows >>= k)
      (fun_ext (λ rows'. write_temporary-all (p + 1) pending rows'))

pub write_final-all :
    (pending : List (ScheduleItemOrder × ℕ)) (rows : List ScheduleItemOrder)
    → write_final pending rows ≡ write_all (final_writes pending) rows
unfolding write_final write_all
write_final-all [] rows = refl
write_final-all ((item, index) ∷ pending) rows =
    ap (λ k. update_position item.id index rows >>= k)
      (fun_ext (λ rows'. write_final-all pending rows'))

-- A statement about each row, carried over a write.
placed-All {ℓ κ} :
    {P : ScheduleItemOrder → Type ℓ} {Q : ScheduleItemOrder → Type κ} (i p : ℕ)
    (rows : List ScheduleItemOrder)
    → ((r : ScheduleItemOrder) → r.id ≡ i → P r → Q (set_position p r))
    → ((r : ScheduleItemOrder) → r.id ≢ i → P r → Q r)
    → All P rows
    → All Q (placed i p rows)
placed-All i p [] hit miss h = tt
placed-All {Q} i p (r ∷ rows) hit miss h = elim (Bool-cases (r.id == i)) [
  | inl e ↦ rw e (hit r ((==_iff r.id i).0 e) h.0, placed-All i p rows hit miss h.1)
  | inr e ↦ rw e (miss r (ground arith) h.0, placed-All i p rows hit miss h.1)
]

module _ (k : GroupKey) where
  -- The rows of the waiting items stand in the group.
  abbrev pub Grouped : List (ScheduleItemOrder × ℕ) → List ScheduleItemOrder → Type 0
  Grouped pending rows = All (λ e. All (λ r. r.id ≡ e.0.id → key_of r ≡ k) rows) pending

  Grouped-placed :
      (i p : ℕ) (pending : List (ScheduleItemOrder × ℕ)) (rows : List ScheduleItemOrder)
      → Grouped pending rows
      → Grouped pending (placed i p rows)
  Grouped-placed i p [] rows h = tt
  Grouped-placed i p (e ∷ pending) rows h = (
    placed-All {P = λ (r : ScheduleItemOrder). r.id ≡ e.0.id → key_of r ≡ k}
        {Q = λ r. r.id ≡ e.0.id → key_of r ≡ k} i p rows (λ r _ g. g) (λ r _ g. g) h.0,
    Grouped-placed i p pending rows h.1,
  )

  abbrev pub Below : ℕ → List ScheduleItemOrder → Type 0
  Below b = All (λ r. key_of r ≡ k → r.position < b)

  pub temporary-Safe :
      (b : ℕ) (pending : List (ScheduleItemOrder × ℕ)) (rows : List ScheduleItemOrder)
      → Grouped pending rows
      → Below b rows
      → Safe k (temporary_writes b pending) rows
  temporary-Safe b [] rows g h = tt
  temporary-Safe b ((item, index) ∷ pending) rows g h = (
    g.0,
    All-map {P = λ (r : ScheduleItemOrder). key_of r ≡ k → r.position < b} rows
        (λ r below _ e. ne_of_lt (below e)) h,
    temporary-Safe (b + 1) pending (placed item.id b rows)
        (Grouped-placed item.id b pending rows g.1)
        (placed-All {P = λ (r : ScheduleItemOrder). key_of r ≡ k → r.position < b}
          {Q = λ r. key_of r ≡ k → r.position < b + 1} item.id b rows (λ r _ _ _. omega arith)
          (λ r _ below e. lt_up (below e)) h),
  )
    where
      ne_of_lt : {a c : ℕ} → a < c → a ≢ c
      ne_of_lt h = omega arith

      lt_up : {a c : ℕ} → a < c → a < c + 1
      lt_up h = omega arith

  abbrev pub AllClear : List (ScheduleItemOrder × ℕ) → List ScheduleItemOrder → Type 0
  AllClear pending = All (λ r. key_of r ≡ k → Clear r.id r.position pending)

  pub final-Safe :
      (pending : List (ScheduleItemOrder × ℕ)) (rows : List ScheduleItemOrder)
      → Ascending pending
      → Grouped pending rows
      → AllClear pending rows
      → Safe k (final_writes pending) rows
  final-Safe [] rows a g h = tt
  final-Safe ((item, index) ∷ pending) rows a g h = (
    g.0,
    All-map
        {P = λ (r : ScheduleItemOrder).
          key_of r ≡ k → Clear r.id r.position ((item, index) ∷ pending)}
        rows (λ r clear other e. (clear e).0 other) h,
    final-Safe pending (placed item.id index rows) a.1
        (Grouped-placed item.id index pending rows g.1)
        (placed-All
          {P = λ (r : ScheduleItemOrder).
            key_of r ≡ k → Clear r.id r.position ((item, index) ∷ pending)}
          {Q = λ r. key_of r ≡ k → Clear r.id r.position pending} item.id index rows
          (λ r _ _ _.
            All-map {P = λ (f : ScheduleItemOrder × ℕ). index < f.1} pending
              (λ f above _. ne_of_lt above) a.0)
          (λ r _ clear e. (clear e).1) h),
  )
    where
      ne_of_lt : {a c : ℕ} → a < c → a ≢ c
      ne_of_lt h = omega arith
