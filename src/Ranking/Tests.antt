-- ===== src/Ranking/Tests.antt =====
-- Two entries of which one is pinned, with whole numbers for the floating-point ones.
use mathlib.Core.List.{Perm}
use metaserver_worker.Ranking.{
  Floats, RankingInput, Ranked, with_rank, rank_directory_entries, compare_ranked, with_ranks,
}
use metaserver_worker.Ranking.Sorted.{rank_directory_entries_sorted}
use metaserver_worker.Ranking.Listed.{HasOwnPin, IsRightlyListed}
use metaserver_worker.Common.{
  ℕ, ◌+◌, ◌*◌, ◌/◌, ◌≡◌, refl, none, some, List, [], ◌∷◌, map, All, codes,
}

abbrev whole_numbers : Floats
whole_numbers = record {
  Float = ℕ;
  of = λ n. n;
  plus = λ a b. a + b;
  times = λ a b. a * b;
  over = λ a b. a / b;
  floor = λ a. a;
}

abbrev quiet_server : RankingInput
quiet_server = record {
  server_id = codes "a";
  current_population = 0;
  last_seen = 100;
  activity_state = none;
  activity_buckets = [];
  admin_pin = none;
}

abbrev pinned_server : RankingInput
pinned_server = record quiet_server {
  server_id = codes "b";
  admin_pin = some (record { priority = 1; expires_at = none });
}

abbrev entries : List RankingInput
entries = quiet_server ∷ pinned_server ∷ []

pinned_first : rank_directory_entries whole_numbers entries 200 ≡ pinned_server ∷ quiet_server ∷ []
unfolding rank_directory_entries compare_ranked
pinned_first = refl

rank_directory_entries_sorted_example :
    (rs : List Ranked) × (rank_directory_entries whole_numbers entries 200 ≡ map (λ r. r.entry) rs)
    × Perm (with_ranks whole_numbers 200 0 entries) rs
    × All (λ r. (r ≡ with_rank whole_numbers 200 r.index r.entry) × HasOwnPin 200 r) rs
    × IsRightlyListed rs
rank_directory_entries_sorted_example = rank_directory_entries_sorted whole_numbers 200 entries
