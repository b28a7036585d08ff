-- ===== src/Propagation/Keyed.antt =====
-- The keys and the due dates of the table of schedules under single writes.
use taiga_back_schedule_mana.Base.{
  ℕ, ◌+◌, ◌<◌, ◌≡◌, ◌≢◌, sym, subst, Bool, false, Option, none, some, List, [], ◌∷◌, ◌++◌, ◌==◌,
  ==_iff, Bool-cases, inl, inr, All, first, update_where, arith,
}
use taiga_back_schedule_mana.Model.{Date, Schedule, Database}
use taiga_back_schedule_mana.Dates.{
  Updates, apply_updates, given_or, NotEarlier, find_schedule, due_of,
}
use taiga_back_schedule_mana.Schedules.{update_schedule_row}
use taiga_back_schedule_mana.Propagation.Moves.{first-update_self, first-update_ne}

-- No two rows have one id.
abbrev pub Different : List Schedule → Type 0
Different [] = Unit
Different (s ∷ rows) = All (λ t. s.id ≢ t.id) rows × Different rows

-- The keys of the table are different, and its sequence is ahead of them.
abbrev pub Keyed : Database → Type 0
Keyed db = Different db.schedules × All (λ s. s.id < db.next_schedule_id) db.schedules

-- Each schedule that has a due date keeps one that is not earlier.
abbrev pub Later : Database → Database → Type 0
Later db db' = (i : ℕ) → NotEarlier (due_of (find_schedule i db)) (due_of (find_schedule i db'))

abbrev pub Step : Database → Database → Type 0
Step db db' = Keyed db' × Later db db'

-- The table of schedules is untouched.
abbrev pub Same : Database → Database → Type 0
Same db db' = (db'.schedules ≡ db.schedules) × (db'.next_schedule_id ≡ db.next_schedule_id)

pub NotEarlier-refl : (d : Option Date) → NotEarlier d d
NotEarlier-refl none = tt
NotEarlier-refl (some d) = omega arith

NotEarlier-trans : (a b c : Option Date) → NotEarlier a b → NotEarlier b c → NotEarlier a c
NotEarlier-trans none b c h k = tt
NotEarlier-trans (some a) none c h k = absurd h
NotEarlier-trans (some a) (some b) none h k = absurd k
NotEarlier-trans (some a) (some b) (some c) h k = omega arith

pub Same-Step : (db db' : Database) → Keyed db → Same db db' → Step db db'
Same-Step db db' k same = (rw (same.0, same.1) k, λ i. rw same.0 (NotEarlier-refl _))

pub Step-trans : (a b c : Database) → Later a b → Step b c → Step a c
Step-trans a b c first_half (k, second_half) = (
  k,
  λ i.
      NotEarlier-trans (due_of (find_schedule i a)) (due_of (find_schedule i b))
        (due_of (find_schedule i c)) (first_half i) (second_half i),
)

update-ids :
    (P : ℕ → Type 0) (test : Schedule → Bool) (u : Updates) (rows : List Schedule)
    → All (λ s. P s.id) rows
    → All (λ s. P s.id) (update_where test (apply_updates u) rows)
update-ids P test u [] h = tt
update-ids P test u (s ∷ rows) h = elim (Bool-cases (test s)) [
  | inl hit ↦ rw hit (h.0, update-ids P test u rows h.1)
  | inr miss ↦ rw miss (h.0, update-ids P test u rows h.1)
]

update-Different :
    (test : Schedule → Bool) (u : Updates) (rows : List Schedule)
    → Different rows
    → Different (update_where test (apply_updates u) rows)
update-Different test u [] d = tt
update-Different test u (s ∷ rows) d = elim (Bool-cases (test s)) [
  | inl hit ↦ rw hit (update-ids (λ i. s.id ≢ i) test u rows d.0, update-Different test u rows d.1)
  | inr miss ↦
      rw miss (update-ids (λ i. s.id ≢ i) test u rows d.0, update-Different test u rows d.1)
]

-- An update of a stored schedule that does not make its due date earlier.
pub update-Step :
    (u : Updates) (s : Schedule) (db : Database)
    → Keyed db
    → find_schedule s.id db ≡ some s
    → NotEarlier s.due_date (given_or u.due_date s.due_date)
    → Step db (update_schedule_row s.id u db)
unfolding update_schedule_row
update-Step u s db (d, b) found later = (
  (
    update-Different _ u db.schedules d,
    update-ids (λ i. i < db.next_schedule_id) _ u db.schedules b,
  ),
  λ i. elim (Bool-cases (i == s.id)) [
    | inl hit ↦
        subst
          (λ j.
            NotEarlier (due_of (find_schedule j db))
              (due_of (find_schedule j (update_schedule_row s.id u db))))
          (sym ((==_iff i s.id).0 hit))
          (rw (found, first-update_self s.id u db.schedules s found) later)
    | inr miss ↦ rw (first-update_ne s.id i u db.schedules (λ e. ground arith)) (NotEarlier-refl _)
  ],
)

append-Different :
    (rows : List Schedule) (s : Schedule)
    → Different rows
    → All (λ t. t.id < s.id) rows
    → Different (rows ++ s ∷ [])
append-Different [] s d b = (tt, tt)
append-Different (t ∷ rows) s d b = (append_all rows d.0, append-Different rows s d.1 b.1)
  where
    append_all :
        (rows : List Schedule)
        → All (λ r. t.id ≢ r.id) rows
        → All (λ r. t.id ≢ r.id) (rows ++ s ∷ [])
    append_all [] h = ((omega arith), tt)
    append_all (r ∷ rest) h = (h.0, append_all rest h.1)

append-Below :
    (n : ℕ) (rows : List Schedule) (s : Schedule)
    → s.id < n
    → All (λ t. t.id < s.id) rows
    → All (λ t. t.id < n) (rows ++ s ∷ [])
append-Below n [] s h b = (h, tt)
append-Below n (t ∷ rows) s h b = (omega arith, append-Below n rows s h b.1)

-- A new schedule at the end of the table.
pub append-Step :
    (s : Schedule) (db : Database)
    → Keyed db
    → s.id ≡ db.next_schedule_id
    → Step db (record db {
      schedules = db.schedules ++ s ∷ [];
      next_schedule_id = db.next_schedule_id + 1;
    })
append-Step s db (d, b) e =
    let below = subst (λ n. All (λ t. t.id < n) db.schedules) (sym e) b in
    (
      (append-Different db.schedules s d below, append-Below _ db.schedules s (omega arith) below),
      λ i. kept i db.schedules,
    )
  where
    kept :
        (i : ℕ) (rows : List Schedule)
        → NotEarlier
            (due_of (first (λ r. r.id == i) rows))
            (due_of (first (λ r. r.id == i) (rows ++ s ∷ [])))
    kept i [] = tt
    kept i (r ∷ rows) = elim (Bool-cases (r.id == i)) [
      | inl hit ↦ rw hit (NotEarlier-refl r.due_date)
      | inr miss ↦ rw miss (kept i rows)
    ]

-- The schedule that an entity has is the one that its key finds.
pub first-find :
    (test : Schedule → Bool) (s : Schedule) (rows : List Schedule)
    → Different rows
    → first test rows ≡ some s
    → first (λ r. r.id == s.id) rows ≡ some s
first-find test s [] d e = absurd (gone e)
  where
    gone : none ≡ some s → ⊥
    gone f = cc
first-find test s (r ∷ rows) d e = elim (Bool-cases (test r)) [
  | inl hit ↦
      subst (λ t. first (λ q. q.id == t.id) (r ∷ rows) ≡ some t) (same (rw hit at e)) (ground arith)
  | inr miss ↦
      let later = first-find test s rows d.1 (rw miss at e) in
      rw (apart r.id s.id (found_ne rows later d.0)) later
]
  where
    same : {x y : Schedule} → some x ≡ some y → x ≡ y
    same f = cc

    apart : (i j : ℕ) → i ≢ j → (i == j) ≡ false
    apart i j h = ground arith

    found_ne :
        (rows : List Schedule)
        → first (λ q. q.id == s.id) rows ≡ some s
        → All (λ t. r.id ≢ t.id) rows
        → r.id ≢ s.id
    found_ne [] f h = absurd (gone f)
      where
        gone : none ≡ some s → ⊥
        gone g = cc
    found_ne (q ∷ rows) f h = elim (Bool-cases (q.id == s.id)) [
      | inl hit ↦ subst (λ n. r.id ≢ n) ((==_iff q.id s.id).0 hit) h.0
      | inr miss ↦ found_ne rows (rw miss at f) h.1
    ]
