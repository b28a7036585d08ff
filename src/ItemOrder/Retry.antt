-- ===== src/ItemOrder/Retry.antt =====
-- `_run_schedule_item_order_operation_with_retries`. An attempt runs in a transaction of its own;
-- between two attempts other writers may change the tables, so an operation is a function of the
-- number of the attempt.
use taiga_back_schedule_mana.Base.{
  ℕ, zero, suc, ◌+◌, ◌-◌, ◌<◌, ◌≡◌, ◌⊎◌, Bool, true, false, Bool-cases, inl, inr, arith,
}
use taiga_back_schedule_mana.Model.{Result, err, integrity_error}

-- `_SCHEDULE_ITEM_ORDER_RETRY_LIMIT`
abbrev pub schedule_item_order_retry_limit : ℕ
schedule_item_order_retry_limit = 3

abbrev pub is_integrity_error : {A : Type 0} → Result A → Bool
is_integrity_error (err integrity_error) = true
is_integrity_error _ = false

-- The `for` loop, with `left` attempts to come after this one.
unfoldable pub attempts : {A : Type 0} → ℕ → ℕ → (ℕ → Result A) → Result A
attempts zero attempt operation = operation attempt
attempts (suc left) attempt operation = elim (is_integrity_error (operation attempt)) [
  | true ↦ attempts left (attempt + 1) operation
  | false ↦ operation attempt
]

unfoldable pub run_with_retries : {A : Type 0} → (ℕ → Result A) → Result A
unfolding attempts
run_with_retries operation = attempts (schedule_item_order_retry_limit - 1) 0 operation

-- The attempts that come before `j` all end in an integrity error.
abbrev pub AllFailBefore : {A : Type 0} → ℕ → (ℕ → Result A) → Type 0
AllFailBefore zero operation = Unit
AllFailBefore (suc j) operation =
    AllFailBefore j operation × (is_integrity_error (operation j) ≡ true)

-- The loop ends with the outcome of an attempt `j`, three attempts at most being made: every attempt
-- before it ends in an integrity error, and it is the third or does not end in one itself.
pub run_with_retries_lem :
    {A : Type 0} (operation : ℕ → Result A)
    → (j : ℕ) × (run_with_retries operation ≡ operation j)
      × (j < schedule_item_order_retry_limit)
      × AllFailBefore j operation
      × ((is_integrity_error (operation j) ≡ false) ⊎ (j + 1 ≡ schedule_item_order_retry_limit))
unfolding run_with_retries attempts
run_with_retries_lem operation = elim (Bool-cases (is_integrity_error (operation 0))) [
  | inr done ↦ (0, ground arith, omega arith, tt, inl done)
  | inl again ↦ elim (Bool-cases (is_integrity_error (operation 1))) [
    | inr done ↦ (1, ground arith, omega arith, (tt, again), inl done)
    | inl failed ↦ (2, ground arith, omega arith, ((tt, again), failed), inr (omega arith))
  ]
]
