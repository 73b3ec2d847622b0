-- ===== src/Ranking/Sorted.antt =====
-- The order and the entries of a ranking.
use mathlib.Core.List.{Perm}
use metaserver_worker.Ranking.{
  Floats, RankingInput, Ranked, sort_ranked, with_rank, with_ranks, rank_directory_entries,
}
use metaserver_worker.Common.{ℕ, suc, ◌≡◌, refl, ap, List, [], ◌∷◌, map, All}
use metaserver_worker.Ranking.Sorting.{sort-Perm, All-sort, sort-InOrder}
use metaserver_worker.Ranking.Listed.{IsRightlyListed, HasOwnPin, own_pin, InOrder-IsRightlyListed}

module _ (F : Floats) (now : ℕ) where
  entries-with_ranks :
      (index : ℕ) (es : List RankingInput) → map (λ r. r.entry) (with_ranks F now index es) ≡ es
  unfolding with_ranks
  entries-with_ranks index [] = refl
  entries-with_ranks index (e ∷ es) = ap (λ rest. e ∷ rest) (entries-with_ranks (suc index) es)

  ranks_own :
      (index : ℕ) (es : List RankingInput)
      → All
          (λ r. (r ≡ with_rank F now r.index r.entry) × HasOwnPin now r)
          (with_ranks F now index es)
  unfolding with_ranks with_rank
  ranks_own index [] = tt
  ranks_own index (e ∷ es) = ((refl, own_pin e.admin_pin now), ranks_own (suc index) es)

  -- The ranking lists the entries of a permutation of the ranked entries, in which each is listed
  -- before every later one rightly: a pin comes first and among pins the lower priority, then the
  -- higher score, the higher population, the later last sighting, the lesser server id and the
  -- place in the input, where each decides between those that agree in what comes before it. An
  -- entry is ranked by its own pin while that has not expired, and by its place.
  pub rank_directory_entries_sorted :
      (es : List RankingInput)
      → (rs : List Ranked) × (rank_directory_entries F es now ≡ map (λ r. r.entry) rs)
        × Perm (with_ranks F now 0 es) rs
        × All (λ r. (r ≡ with_rank F now r.index r.entry) × HasOwnPin now r) rs
        × IsRightlyListed rs
  unfolding rank_directory_entries
  rank_directory_entries_sorted es = (
    sort_ranked (with_ranks F now 0 es),
    refl,
    sort-Perm (with_ranks F now 0 es),
    All-sort (λ r. (r ≡ with_rank F now r.index r.entry) × HasOwnPin now r) (with_ranks F now 0 es)
        (ranks_own 0 es),
    InOrder-IsRightlyListed (sort_ranked (with_ranks F now 0 es))
        (sort-InOrder (with_ranks F now 0 es)),
  )
