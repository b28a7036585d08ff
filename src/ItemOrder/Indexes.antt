-- ===== src/ItemOrder/Indexes.antt =====
-- Where an item stands in a list, and what `_persist_group_positions` writes for it.
use taiga_back_schedule_mana.Base.{
  ℕ, suc, ◌+◌, ◌≤◌, ◌<◌, ◌≡◌, ◌≢◌, refl, subst, Option, none, some, List, [], ◌∷◌, ◌==◌, ==_iff,
  Bool-cases, inl, inr, All, All-map, length, if◌then◌else◌, arith, max,
}
use taiga_back_schedule_mana.Model.{ScheduleItemOrder}
use taiga_back_schedule_mana.ItemOrder.Persist.{pending_updates, max_position}
use taiga_back_schedule_mana.ItemOrder.Writes.{Writes, Distinct}

pub none≢some {ℓ} : {A : Type ℓ} {a : A} → none ≢ some a
none≢some e = cc

-- The index of the item with a key, counted from `n`.
abbrev pub index_of : ℕ → ℕ → List ScheduleItemOrder → Option ℕ
index_of i n [] = none
index_of i n (item ∷ items) = if item.id == i then some n else index_of i (n + 1) items

-- The writes of the two loops.
abbrev pub temporary_writes : ℕ → List (ScheduleItemOrder × ℕ) → Writes
temporary_writes p [] = []
temporary_writes p ((item, index) ∷ pending) = (item.id, p) ∷ temporary_writes (p + 1) pending

abbrev pub final_writes : List (ScheduleItemOrder × ℕ) → Writes
final_writes [] = []
final_writes ((item, index) ∷ pending) = (item.id, index) ∷ final_writes pending

-- The position of a row after some writes.
abbrev pub position_after : Writes → ℕ → ℕ → ℕ
position_after [] i p = p
position_after ((j, q) ∷ writes) i p = position_after writes i (if i == j then q else p)

-- The row has no item that waits.
abbrev pub Settled : ℕ → List (ScheduleItemOrder × ℕ) → Type 0
Settled i pending = All (λ e. i ≢ e.0.id) pending

abbrev pub Absent : ℕ → List ScheduleItemOrder → Type 0
Absent i items = All (λ item. i ≢ item.id) items

pub Absent-Settled :
    (i n : ℕ) (items : List ScheduleItemOrder)
    → Absent i items
    → Settled i (pending_updates n items)
unfolding pending_updates
Absent-Settled i n [] h = tt
Absent-Settled i n (item ∷ items) h = elim (Bool-cases (item.position == n)) [
  | inl there ↦ rw there (Absent-Settled i (n + 1) items h.1)
  | inr away ↦ rw away (h.0, Absent-Settled i (n + 1) items h.1)
]

pub Settled-temporary :
    (i p b : ℕ) (pending : List (ScheduleItemOrder × ℕ))
    → Settled i pending
    → position_after (temporary_writes b pending) i p ≡ p
Settled-temporary i p b [] h = refl
Settled-temporary i p b ((item, index) ∷ pending) h =
    ground (arith, Settled-temporary i p (b + 1) pending h.1)

pub Settled-final :
    (i p : ℕ) (pending : List (ScheduleItemOrder × ℕ))
    → Settled i pending
    → position_after (final_writes pending) i p ≡ p
Settled-final i p [] h = refl
Settled-final i p ((item, index) ∷ pending) h = ground (arith, Settled-final i p pending h.1)

-- What the final writes leave of a row: an item is found at its index, whether it waited or not.
pub final-index :
    (i p n k : ℕ) (items : List ScheduleItemOrder)
    → Distinct items
    → index_of i n items ≡ some k
    → All (λ item. item.id ≡ i → item.position ≡ k → p ≡ k) items
    → position_after (final_writes (pending_updates n items)) i p ≡ k
unfolding pending_updates
final-index i p n k [] d e h = cc
final-index i p n k (item ∷ items) d e h = elim (Bool-cases (item.id == i)) [
  | inl hit ↦
      let same = (==_iff item.id i).0 hit in
      let gone = Absent-Settled i (n + 1) items (subst (λ (j : ℕ). Absent j items) same d.0) in
      ground (
        arith,
        h.0,
        Settled-final i p (pending_updates (n + 1) items) gone,
        Settled-final i n (pending_updates (n + 1) items) gone,
      )
  | inr miss ↦ ground (arith, final-index i p (n + 1) k items d.1 (rw miss at e) h.1)
]

-- Every waiting item has an index of at least `n`, and below `n` and the number of the items.
pub pending-index :
    (n : ℕ) (items : List ScheduleItemOrder)
    → All (λ e. (n ≤ e.1) × (e.1 < n + length items)) (pending_updates n items)
unfolding pending_updates
pending-index n [] = tt
pending-index n (item ∷ items) =
    let rest =
      All-map {P = λ (e : ScheduleItemOrder × ℕ). (n + 1 ≤ e.1) × (e.1 < n + 1 + length items)}
        {Q = λ e. (n ≤ e.1) × (e.1 < n + suc (length items))} (pending_updates (n + 1) items)
        (λ e h. (omega arith, omega arith)) (pending-index (n + 1) items) in
    elim (Bool-cases (item.position == n)) [
      | inl there ↦ rw there rest
      | inr away ↦ rw away ((omega arith, omega arith), rest)
    ]

pub le-max_position :
    (l : ℕ) (items : List ScheduleItemOrder)
    → (l ≤ max_position l items) × All (λ item. item.position ≤ max_position l items) items
unfolding max_position
le-max_position l [] = (omega arith, tt)
le-max_position l (item ∷ items) =
    let rest = le-max_position l items in
    (
      omega (arith, rest.0),
      (
        omega arith,
        All-map {P = λ (r : ScheduleItemOrder). r.position ≤ max_position l items}
            {Q = λ r. r.position ≤ max item.position (max_position l items)} items
            (λ r h. omega arith) rest.1,
      ),
    )
