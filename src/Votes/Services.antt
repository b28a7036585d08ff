-- ===== src/Votes/Services.antt =====
-- taiga/projects/votes/services.py and models.py. A vote names its object by content type and id.
use taiga_back_schedule_mana.Base.{
  ℕ, ◌+◌, ◌-◌, Bool, ◌&&◌, not, Option, none, some, List, ◌∷◌, map, keep, first, any_of,
  update_where, ◌==◌, if◌then◌else◌,
}
use taiga_back_schedule_mana.Model.{Result, ok, err, integrity_error, ◌>>=◌}

pub record Vote : Type 0 where
  pub content_type_id : ℕ
  pub object_id : ℕ
  pub user_id : ℕ

-- The counter of an object.
pub record Votes : Type 0 where
  pub content_type_id : ℕ
  pub object_id : ℕ
  pub count : ℕ

pub record Store : Type 0 where
  pub rows : List Vote
  pub counters : List Votes

abbrev pub is_for : ℕ → ℕ → Vote → Bool
is_for t o v = v.content_type_id == t && v.object_id == o

abbrev pub is_vote : ℕ → ℕ → ℕ → Vote → Bool
is_vote t o u v = is_for t o v && v.user_id == u

abbrev pub is_counter : ℕ → ℕ → Votes → Bool
is_counter t o c = c.content_type_id == t && c.object_id == o

abbrev pub has_voted : ℕ → ℕ → ℕ → Store → Bool
has_voted t o u s = any_of (is_vote t o u) s.rows

-- `Votes.objects.get_or_create(…)`
abbrev pub get_or_create_votes : ℕ → ℕ → List Votes → List Votes
get_or_create_votes t o counters =
    if any_of (is_counter t o) counters
    then counters
    else record { content_type_id = t; object_id = o; count = 0 } ∷ counters

abbrev pub with_count : (ℕ → ℕ) → Votes → Votes
with_count f c = record c { count = f c.count }

abbrev pub count_or_zero : Option Votes → ℕ
count_or_zero none = 0
count_or_zero (some c) = c.count

abbrev pub count_in : ℕ → ℕ → List Votes → ℕ
count_in t o counters = count_or_zero (first (is_counter t o) counters)

unfoldable pub get_votes : ℕ → ℕ → Store → ℕ
get_votes t o s = count_in t o s.counters

unfoldable pub get_voters : ℕ → ℕ → Store → List ℕ
get_voters t o s = map (λ v. v.user_id) (keep (is_for t o) s.rows)

unfoldable pub add_vote : ℕ → ℕ → ℕ → Store → Store
add_vote t o u s = if has_voted t o u s then s else record {
  rows = record { content_type_id = t; object_id = o; user_id = u } ∷ s.rows;
  counters =
      update_where (is_counter t o) (with_count (λ n. n + 1)) (get_or_create_votes t o s.counters);
}

-- `votes.count = F('count') - 1`, which the column's constraint refuses below 0.
abbrev pub lower_count : ℕ → ℕ → List Votes → Result (List Votes)
lower_count t o counters =
    if count_in t o counters == 0
    then err integrity_error
    else ok (update_where (is_counter t o) (with_count (λ n. n - 1)) counters)

-- `remove_vote` after its test.
unfoldable pub finish_removal : ℕ → ℕ → ℕ → Store → Result Store
finish_removal t o u s = lower_count t o (get_or_create_votes t o s.counters) >>= λ counters.
    ok (record { rows = keep (λ v. not (is_vote t o u v)) s.rows; counters = counters })

unfoldable pub remove_vote : ℕ → ℕ → ℕ → Store → Result Store
remove_vote t o u s = if has_voted t o u s then finish_removal t o u s else ok s
