-- ===== src/ItemOrder/Clearance.antt =====
-- The writes of `_persist_group_positions` and the rows that may still stand in their way.
use taiga_back_schedule_mana.Base.{
  ℕ, ◌+◌, ◌≤◌, ◌<◌, ◌≡◌, ◌≢◌, sym, ◌∙◌, subst, true, false, none, some, List, [], ◌∷◌, ◌==◌, ==_iff,
  Bool-cases, inl, inr, All, All-map, length, if◌then◌else◌, arith,
}
use taiga_back_schedule_mana.Model.{ScheduleItemOrder}
use taiga_back_schedule_mana.ItemOrder.Persist.{pending_updates}
use taiga_back_schedule_mana.ItemOrder.Writes.{Distinct}
use taiga_back_schedule_mana.ItemOrder.Indexes.{
  none≢some, index_of, temporary_writes, position_after, Settled, Absent, Absent-Settled,
  pending-index,
}

-- No waiting item but the row's own is to be written where the row stands.
abbrev pub Clear : ℕ → ℕ → List (ScheduleItemOrder × ℕ) → Type 0
Clear i p pending = All (λ e. i ≢ e.0.id → p ≢ e.1) pending

abbrev pub Ascending : List (ScheduleItemOrder × ℕ) → Type 0
Ascending [] = Unit
Ascending (e ∷ pending) = All (λ f. e.1 < f.1) pending × Ascending pending

above-Clear :
    (i p n : ℕ) (items : List ScheduleItemOrder) → p < n → Clear i p (pending_updates n items)
above-Clear i p n items h =
    All-map {P = λ (e : ScheduleItemOrder × ℕ). (n ≤ e.1) × (e.1 < n + length items)}
      {Q = λ e. i ≢ e.0.id → p ≢ e.1} (pending_updates n items) (λ e b _. omega arith)
      (pending-index n items)

pub below-Clear :
    (i p n : ℕ) (items : List ScheduleItemOrder)
    → n + length items ≤ p
    → Clear i p (pending_updates n items)
below-Clear i p n items h =
    All-map {P = λ (e : ScheduleItemOrder × ℕ). (n ≤ e.1) × (e.1 < n + length items)}
      {Q = λ e. i ≢ e.0.id → p ≢ e.1} (pending_updates n items) (λ e b _. omega arith)
      (pending-index n items)

pub pending-Ascending :
    (n : ℕ) (items : List ScheduleItemOrder) → Ascending (pending_updates n items)
unfolding pending_updates
pending-Ascending n [] = tt
pending-Ascending n (item ∷ items) =
    let rest =
      All-map {P = λ (e : ScheduleItemOrder × ℕ). (n + 1 ≤ e.1) × (e.1 < n + 1 + length items)}
        {Q = λ e. n < e.1} (pending_updates (n + 1) items) (λ e h. omega arith)
        (pending-index (n + 1) items) in
    elim (Bool-cases (item.position == n)) [
      | inl there ↦ rw there (pending-Ascending (n + 1) items)
      | inr away ↦ rw away (rest, pending-Ascending (n + 1) items)
    ]

pub index-ge : (i n k : ℕ) (items : List ScheduleItemOrder) → index_of i n items ≡ some k → n ≤ k
index-ge i n k [] e = absurd (none≢some e)
index-ge i n k (item ∷ items) e = ground (arith, index-ge i (n + 1) k items)

pub index-Clear :
    (i n k : ℕ) (items : List ScheduleItemOrder)
    → index_of i n items ≡ some k
    → Clear i k (pending_updates n items)
unfolding pending_updates
index-Clear i n k [] e = tt
index-Clear i n k (item ∷ items) e = elim (Bool-cases (item.id == i)) [
  | inl hit ↦
      let same = (==_iff item.id i).0 hit in
      let here : n ≡ k = ground arith in
      let rest = above-Clear i k (n + 1) items (omega arith) in
      elim (Bool-cases (item.position == n)) [
        | inl there ↦ rw there rest
        | inr away ↦ rw away ((λ other. absurd (other (sym same))), rest)
      ]
  | inr miss ↦
      let later : index_of i (n + 1) items ≡ some k = rw miss at e in
      let rest = index-Clear i (n + 1) k items later in
      let bound = index-ge i (n + 1) k items later in
      elim (Bool-cases (item.position == n)) [
        | inl there ↦ rw there rest
        | inr away ↦ rw away ((λ _. omega arith), rest)
      ]
]

-- An item that stands at its index does not wait.
pub index-Settled :
    (i n k : ℕ) (items : List ScheduleItemOrder)
    → Distinct items
    → index_of i n items ≡ some k
    → All (λ item. item.id ≡ i → item.position ≡ k) items
    → Settled i (pending_updates n items)
unfolding pending_updates
index-Settled i n k [] d e h = tt
index-Settled i n k (item ∷ items) d e h = elim (Bool-cases (item.id == i)) [
  | inl hit ↦
      let same = (==_iff item.id i).0 hit in
      let here : n ≡ k = ground arith in
      let there : (item.position == n) ≡ true = (==_iff item.position n).1 (h.0 same ∙ sym here) in
      rw there (Absent-Settled i (n + 1) items (subst (λ (j : ℕ). Absent j items) same d.0))
  | inr miss ↦
      let rest = index-Settled i (n + 1) k items d.1 (rw miss at e) h.1 in
      elim (Bool-cases (item.position == n)) [
        | inl there ↦ rw there rest
        | inr away ↦ rw away (ground arith, rest)
      ]
]

temporary-ge :
    (i p b c : ℕ) (pending : List (ScheduleItemOrder × ℕ))
    → b ≤ c
    → b ≤ p
    → b ≤ position_after (temporary_writes c pending) i p
temporary-ge i p b c [] h g = g
temporary-ge i p b c ((item, index) ∷ pending) h g =
    temporary-ge i (if i == item.id then c else p) b (c + 1) pending (omega arith) (ground arith)

-- An item that does not stand at its index is moved behind all others first.
pub index-temporary :
    (i p n k b c : ℕ) (items : List ScheduleItemOrder)
    → index_of i n items ≡ some k
    → All (λ item. item.id ≡ i → item.position ≢ k) items
    → b ≤ c
    → b ≤ position_after (temporary_writes c (pending_updates n items)) i p
unfolding pending_updates
index-temporary i p n k b c [] e h le = absurd (none≢some e)
index-temporary i p n k b c (item ∷ items) e h le = elim (Bool-cases (item.id == i)) [
  | inl hit ↦
      let same = (==_iff item.id i).0 hit in
      let here : n ≡ k = ground arith in
      let away : (item.position == n) ≡ false = ground (arith, h.0 same) in
      rw away (
        temporary-ge i (if i == item.id then c else p) b (c + 1) (pending_updates (n + 1) items)
          (omega arith) (ground arith))
  | inr miss ↦
      let later : index_of i (n + 1) items ≡ some k = rw miss at e in
      elim (Bool-cases (item.position == n)) [
        | inl there ↦ rw there (index-temporary i p (n + 1) k b c items later h.1 le)
        | inr away ↦ rw away (
            index-temporary i (if i == item.id then c else p) (n + 1) k b (c + 1) items later h.1
              (omega arith))
      ]
]

pub index-Absent :
    (i n : ℕ) (items : List ScheduleItemOrder) → index_of i n items ≡ none → Absent i items
index-Absent i n [] e = tt
index-Absent i n (item ∷ items) e = elim (Bool-cases (item.id == i)) [
  | inl hit ↦ absurd (none≢some (sym (rw hit at e)))
  | inr miss ↦ (ground arith, index-Absent i (n + 1) items (rw miss at e))
]
