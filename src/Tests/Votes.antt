-- ===== src/Tests/Votes.antt =====
-- The theorems on votes, after two users have voted for one object.
use taiga_back_schedule_mana.Base.{ℕ, ◌≡◌, refl, suc, length, arith}
use taiga_back_schedule_mana.Model.{ok}
use taiga_back_schedule_mana.Votes.{Store, get_votes, get_voters, add_vote, remove_vote}
use taiga_back_schedule_mana.Votes.Consistent.{
  IsReachable, empty, added, empty_store, get_votes-get_voters,
}
use taiga_back_schedule_mana.Votes.Interleaved.{overlapping_removals, overlapping_removals_lem}
use taiga_back_schedule_mana.Votes.RoundTrip.{remove_vote-add_vote}

abbrev two_votes : Store
two_votes = add_vote 9 1 5 (add_vote 9 1 4 empty_store)

two_votes-IsReachable : IsReachable two_votes
two_votes-IsReachable = added 9 1 5 (added 9 1 4 empty)

get_votes-get_voters_example : get_votes 9 1 two_votes ≡ length (get_voters 9 1 two_votes)
get_votes-get_voters_example = get_votes-get_voters two_votes 9 1 two_votes-IsReachable

overlapping_removals_lem_example :
    (s' : Store) × (overlapping_removals 9 1 4 two_votes ≡ ok s')
    × (length (get_voters 9 1 s') ≡ suc (get_votes 9 1 s'))
unfolding add_vote get_votes
overlapping_removals_lem_example =
    overlapping_removals_lem two_votes 9 1 4 two_votes-IsReachable refl (omega arith)

remove_vote-add_vote_example :
    (s' : Store) × (remove_vote 9 1 6 (add_vote 9 1 6 two_votes) ≡ ok s')
    × (s'.rows ≡ two_votes.rows)
    × ((a b : ℕ) → get_votes a b s' ≡ get_votes a b two_votes)
unfolding add_vote
remove_vote-add_vote_example = remove_vote-add_vote 9 1 6 two_votes refl
