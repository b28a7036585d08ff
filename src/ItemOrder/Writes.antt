-- ===== src/ItemOrder/Writes.antt =====
-- Sequences of single writes to the table of item orders, and when none of them breaks the
-- uniqueness constraint.
use taiga_back_schedule_mana.Base.{
  ℕ, ◌≡◌, ◌≢◌, ◌↔◌, refl, sym, ◌∙◌, true, false, List, [], ◌∷◌, ◌==◌, ==_iff, Bool-cases, inl, inr,
  All, any_of, arith, Option, none, some,
}
use taiga_back_schedule_mana.Model.{EntityType, same_type_iff, ScheduleItemOrder, Result, ok, ◌>>=◌}
use taiga_back_schedule_mana.ItemOrder.Keys.{GroupKey, key_of, same_key, same_parent_type}
use taiga_back_schedule_mana.ItemOrder.Persist.{
  collide, is_unique, checked, set_position, placed, update_position,
}

same_parent_type_iff : (a b : Option EntityType) → (same_parent_type a b ≡ true) ↔ (a ≡ b)
same_parent_type_iff none none = ground arith
same_parent_type_iff none (some b) = ground arith
same_parent_type_iff (some a) none = ground arith
same_parent_type_iff (some a) (some b) = ground (arith, same_type_iff a b)

pub same_key_iff : (a b : GroupKey) → (same_key a b ≡ true) ↔ (a ≡ b)
same_key_iff (p, t, pt, pid) (p', t', pt', pid') =
    ground (arith, same_type_iff t t', same_parent_type_iff pt pt')

-- Two rows that may stand in one table.
abbrev pub Apart : ScheduleItemOrder → ScheduleItemOrder → Type 0
Apart r s = key_of r ≡ key_of s → r.position ≢ s.position

-- The uniqueness constraint of the table.
abbrev pub Unique : List ScheduleItemOrder → Type 0
Unique [] = Unit
Unique (r ∷ rows) = All (Apart r) rows × Unique rows

-- No key of the table is used twice.
abbrev pub Distinct : List ScheduleItemOrder → Type 0
Distinct [] = Unit
Distinct (r ∷ rows) = All (λ s. r.id ≢ s.id) rows × Distinct rows

collide-Apart : (r s : ScheduleItemOrder) → (collide r s ≡ false) ↔ Apart r s
collide-Apart r s = elim (Bool-cases (same_key (key_of r) (key_of s))) [
  | inl same ↦
      let e = (same_key_iff (key_of r) (key_of s)).0 same in
      rw same (
        (λ h _ p. apart_of_test r.position s.position h p),
        (λ h. test_of_apart r.position s.position (h e)),
      )
  | inr other ↦
      rw other
        ((λ _ e _. differ (sym other ∙ (same_key_iff (key_of r) (key_of s)).1 e)), (λ _. refl))
]
  where
    apart_of_test : (a b : ℕ) → (a == b) ≡ false → a ≢ b
    apart_of_test a b h = ground arith

    test_of_apart : (a b : ℕ) → a ≢ b → (a == b) ≡ false
    test_of_apart a b h = ground arith

    differ : false ≡ true → ⊥
    differ e = cc

any-collide :
    (r : ScheduleItemOrder) (rows : List ScheduleItemOrder)
    → All (Apart r) rows
    → any_of (collide r) rows ≡ false
any-collide r [] h = refl
any-collide r (s ∷ rows) h = ground (arith, (collide-Apart r s).1 h.0, any-collide r rows h.1)

pub is_unique_of : (rows : List ScheduleItemOrder) → Unique rows → is_unique rows ≡ true
unfolding is_unique
is_unique_of [] h = refl
is_unique_of (r ∷ rows) h = ground (arith, any-collide r rows h.0, is_unique_of rows h.1)

module _ (k : GroupKey) (i p : ℕ) where
  -- The row that is written stands in the group.
  abbrev pub Inside : List ScheduleItemOrder → Type 0
  Inside = All (λ r. r.id ≡ i → key_of r ≡ k)

  -- No other row of the group stands at the position.
  abbrev pub Free : List ScheduleItemOrder → Type 0
  Free = All (λ r. r.id ≢ i → key_of r ≡ k → r.position ≢ p)

  other_id : (j : ℕ) → j ≢ i → (j == i) ≡ false
  other_id j h = ground arith

  ne_of_test : (j : ℕ) → (j == i) ≡ false → j ≢ i
  ne_of_test j h = ground arith

  Apart-written :
      (r : ScheduleItemOrder) (rows : List ScheduleItemOrder)
      → r.id ≡ i
      → key_of r ≡ k
      → All (λ s. r.id ≢ s.id) rows
      → Free rows
      → All (Apart (set_position p r)) (placed i p rows)
  Apart-written r [] e g d f = tt
  Apart-written r (s ∷ rows) e g d f =
      let miss : (s.id == i) ≡ false = other_id s.id (λ q. d.0 (e ∙ sym q)) in
      (
        rw miss (λ same here. f.0 (λ q. d.0 (e ∙ sym q)) (sym same ∙ g) (sym here)),
        Apart-written r rows e g d.1 f.1,
      )

  Apart-other :
      (r : ScheduleItemOrder) (rows : List ScheduleItemOrder)
      → r.id ≢ i
      → (key_of r ≡ k → r.position ≢ p)
      → Inside rows
      → All (Apart r) rows
      → All (Apart r) (placed i p rows)
  Apart-other r [] e g d f = tt
  Apart-other r (s ∷ rows) e g d f = elim (Bool-cases (s.id == i)) [
    | inl hit ↦
        (rw hit (λ same. g (same ∙ d.0 ((==_iff s.id i).0 hit))), Apart-other r rows e g d.1 f.1)
    | inr miss ↦ (rw miss f.0, Apart-other r rows e g d.1 f.1)
  ]

  pub placed-Unique :
      (rows : List ScheduleItemOrder)
      → Distinct rows
      → Unique rows
      → Inside rows
      → Free rows
      → Unique (placed i p rows)
  placed-Unique [] d u g f = tt
  placed-Unique (r ∷ rows) d u g f = elim (Bool-cases (r.id == i)) [
    | inl hit ↦
        let e = (==_iff r.id i).0 hit in
        rw hit (Apart-written r rows e (g.0 e) d.0 f.1, placed-Unique rows d.1 u.1 g.1 f.1)
    | inr miss ↦
        let e = ne_of_test r.id miss in
        rw miss (Apart-other r rows e (f.0 e) g.1 u.0, placed-Unique rows d.1 u.1 g.1 f.1)
  ]

  -- A write keeps the keys of all rows.
  placed-ne :
      (j : ℕ) (rows : List ScheduleItemOrder)
      → All (λ s. j ≢ s.id) rows
      → All (λ s. j ≢ s.id) (placed i p rows)
  placed-ne j [] h = tt
  placed-ne j (r ∷ rows) h = ground (arith, placed-ne j rows h.1)

  pub placed-Distinct : (rows : List ScheduleItemOrder) → Distinct rows → Distinct (placed i p rows)
  placed-Distinct [] d = tt
  placed-Distinct (r ∷ rows) d =
      let rest : All (λ s. r.id ≢ s.id) (placed i p rows) × Distinct (placed i p rows) =
        (placed-ne r.id rows d.0, placed-Distinct rows d.1) in
      elim (Bool-cases (r.id == i)) [ inl hit ↦ rw hit rest | inr miss ↦ rw miss rest ]

-- A list of writes, each a key and a position.
abbrev pub Writes : Type 0
Writes = List (ℕ × ℕ)

unfoldable pub write_all : Writes → List ScheduleItemOrder → Result (List ScheduleItemOrder)
write_all [] rows = ok rows
write_all ((i, p) ∷ writes) rows = do rows' ← update_position i p rows; write_all writes rows'

unfoldable pub apply_all : Writes → List ScheduleItemOrder → List ScheduleItemOrder
apply_all [] rows = rows
apply_all ((i, p) ∷ writes) rows = apply_all writes (placed i p rows)

module _ (k : GroupKey) where
  -- Each write in turn finds its position free.
  abbrev pub Safe : Writes → List ScheduleItemOrder → Type 0
  Safe [] rows = Unit
  Safe ((i, p) ∷ writes) rows = Inside k i p rows × Free k i p rows × Safe writes (placed i p rows)

  -- Safe writes all succeed, and the constraint holds behind each of them.
  pub write_all-ok :
      (writes : Writes) (rows : List ScheduleItemOrder)
      → Distinct rows
      → Unique rows
      → Safe writes rows
      → (write_all writes rows ≡ ok (apply_all writes rows))
        × Unique (apply_all writes rows)
        × Distinct (apply_all writes rows)
  unfolding write_all apply_all update_position checked
  write_all-ok [] rows d u s = (refl, u, d)
  write_all-ok ((i, p) ∷ writes) rows d u s =
      let u' = placed-Unique k i p rows d u s.0 s.1 in
      let rest = write_all-ok writes (placed i p rows) (placed-Distinct k i p rows d) u' s.2 in
      (rw (is_unique_of (placed i p rows) u') rest.0, rest.1, rest.2)
