-- ===== src/Votes/Interleaved.antt =====
-- Two removals of one user at a time. `remove_vote` holds the lock for its test only: the second call may
-- test before the first one deletes.
use taiga_back_schedule_mana.Base.{
  ℕ, suc, ◌+◌, ◌-◌, ◌≤◌, ◌≡◌, ◌∙◌, ap, true, ◌&&◌, not, List, keep, length, ◌==◌, if◌then◌else◌,
  arith,
}
use taiga_back_schedule_mana.Model.{Result, ok, ◌>>=◌}
use taiga_back_schedule_mana.Votes.Services.{
  Vote, Store, is_for, is_vote, has_voted, count_in, get_votes, get_voters, finish_removal,
}
use taiga_back_schedule_mana.Votes.Rows.{number}
use taiga_back_schedule_mana.Votes.Adding.{number-none}
use taiga_back_schedule_mana.Votes.Consistent.{
  IsReachable, IsReachable-IsConsistent, removed, finish_removal_lem, count-lowered, number-removed,
  voted_once, length-map, any_of-deleted,
}

-- Both calls test, then both go on.
unfoldable pub overlapping_removals : ℕ → ℕ → ℕ → Store → Result Store
overlapping_removals t o u s =
    if has_voted t o u s then finish_removal t o u s >>= finish_removal t o u else ok s

-- Where a user has voted for an object with at least two votes, two removals that both test first lower
-- the count below the number of the voters that are left.
pub overlapping_removals_lem :
    (s : Store) (t o u : ℕ)
    → IsReachable s
    → has_voted t o u s ≡ true
    → 2 ≤ get_votes t o s
    → (s' : Store) × (overlapping_removals t o u s ≡ ok s')
      × (length (get_voters t o s') ≡ suc (get_votes t o s'))
unfolding overlapping_removals get_votes get_voters
overlapping_removals_lem s t o u h voted two =
    let consistent = IsReachable-IsConsistent h in
    let once = voted_once t o u s consistent voted in
    let first_fall = fall s in
    let second_fall = fall (removed t o u s) in
    let first_left = left s.rows in
    let second_left = left (removed t o u s).rows in
    let none_left =
      number-none (is_vote t o u) (removed t o u s).rows (any_of-deleted (is_vote t o u) s.rows) in
    (
      removed t o u (removed t o u s),
      rw (voted, finish_removal_lem t o u s once.1)
          (finish_removal_lem t o u (removed t o u s) (omega (arith, first_fall, two))),
      length-map (λ v. v.user_id) (keep (is_for t o) (removed t o u (removed t o u s)).rows)
          ∙ omega (
            arith,
            first_fall,
            second_fall,
            first_left,
            second_left,
            none_left,
            once.0,
            consistent.0 t o,
            two,
          ),
    )
  where
    own : (a b : ℕ) → (a == a && b == b) ≡ true
    own a b = ground arith

    fall : (r : Store) → count_in t o (removed t o u r).counters ≡ count_in t o r.counters - 1
    fall r =
        count-lowered t o t o r.counters
        ∙ ap (λ b. if b then count_in t o r.counters - 1 else count_in t o r.counters) (own t o)

    left :
        (rows : List Vote)
        → number (is_for t o) rows
          ≡ number (is_for t o) (keep (λ v. not (is_vote t o u v)) rows)
            + number (is_vote t o u) rows
    left rows =
        number-removed t o u t o rows
        ∙ ap
            (λ b.
              number (is_for t o) (keep (λ v. not (is_vote t o u v)) rows)
              + (if b then number (is_vote t o u) rows else 0))
            (own t o)
