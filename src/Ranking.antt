-- ===== src/Ranking.antt =====
-- src/directory-ranking.ts: the order of the public directory.
-- Populations, times and priorities are non-negative integers, as the tables' checks require.
-- The activity score is computed in floating point, whose operations are a parameter.
pub mod Order
pub mod Sorting
pub mod Listed
pub mod Sorted
pub mod Tests
use metaserver_worker.Common.{
  ℕ, ◌-◌, ◌*◌, ◌/◌, Bool, true, false, ◌&&◌, Option, none, some, List, [], ◌∷◌, map, ltb, ◌==◌,
  if◌then◌else◌, Text, text_lt, min, max, keep, length, suc, ◌+◌,
}
use Prim.Native.Nat.{Ordering, compare}

abbrev pub activity_window_seconds : ℕ
activity_window_seconds = 7 * 24 * 60 * 60

abbrev pub activity_window_buckets : ℕ
activity_window_buckets = 7

abbrev pub max_population : ℕ
max_population = 100_000

abbrev pub max_score : ℕ
max_score = 1_000_000

abbrev pub max_player_minutes : ℕ
max_player_minutes = activity_window_seconds * max_population / 60

pub record ActivityState : Type 0 where
  pub last_observed_at : ℕ
  pub last_positive_observed_at : Option ℕ
  pub last_population : ℕ
  pub observation_count : ℕ

pub record ActivityBucket : Type 0 where
  pub bucket_start : ℕ
  pub positive_seconds : ℕ
  pub player_minutes : ℕ
  pub bucket_population : ℕ
  pub positive_observations : ℕ
  pub zero_observations : ℕ

pub record AdminPin : Type 0 where
  pub priority : ℕ
  pub expires_at : Option ℕ

pub record RankingInput : Type 0 where
  pub server_id : Text
  pub current_population : ℕ
  pub last_seen : ℕ
  pub activity_state : Option ActivityState
  pub activity_buckets : List ActivityBucket
  pub admin_pin : Option AdminPin

-- The operations of floating-point numbers that the score uses.
pub record Floats : Type 1 where
  pub Float : Type 0
  pub of : ℕ → Float
  pub plus : Float → Float → Float
  pub times : Float → Float → Float
  pub over : Float → Float → Float
  pub floor : Float → ℕ

-- An entry with what it is ordered by.
pub record Ranked : Type 0 where
  pub entry : RankingInput
  pub index : ℕ
  pub pinned : Option AdminPin
  pub score : ℕ
  pub population : ℕ

abbrev pub total : (ActivityBucket → ℕ) → List ActivityBucket → ℕ
total f [] = 0
total f (b ∷ bs) = f b + total f bs

unfoldable pub active_pin : Option AdminPin → ℕ → Option AdminPin
active_pin none now = none
active_pin (some pin) now = elim pin.expires_at [
  | none ↦ some pin
  | some at ↦ if ltb now at then some pin else none
]

module _ (F : Floats) where
  -- `base * freshness * DIRECTORY_ACTIVITY_MAX_SCORE`, rounded down.
  unfoldable pub weighted_score : (positive_seconds player_minutes active_days age : ℕ) → ℕ
  weighted_score positive_seconds player_minutes active_days age =
      let duration = F.over (F.of positive_seconds) (F.of activity_window_seconds) in
      let crowd = F.over (F.of player_minutes) (F.of max_player_minutes) in
      let consistency = F.over (F.of active_days) (F.of activity_window_buckets) in
      let base =
        F.over
          (F.plus (F.plus (F.times duration (F.of 45)) (F.times crowd (F.of 35)))
            (F.times consistency (F.of 20)))
          (F.of 100) in
      let freshness =
        F.over (F.of (activity_window_seconds - age)) (F.of activity_window_seconds) in
      F.floor (F.times (F.times base freshness) (F.of max_score))

  unfoldable pub warmed_score : RankingInput → ActivityState → ℕ → ℕ
  unfolding weighted_score
  warmed_score input state age =
      let score =
        weighted_score
          (min activity_window_seconds (total (λ b. b.positive_seconds) input.activity_buckets))
          (min max_player_minutes (total (λ b. b.player_minutes) input.activity_buckets))
          (min activity_window_buckets
            (length (keep (λ b. ltb 0 b.positive_observations) input.activity_buckets)))
          age in
      if (score == 0)
        && ltb age activity_window_seconds
        && ltb 0 input.current_population
        && ltb 0 state.observation_count
      then 1
      else min max_score score

  unfoldable pub directory_activity_score : RankingInput → ℕ → ℕ
  unfolding warmed_score
  directory_activity_score input now = elim input.activity_state [
    | none ↦ 0
    | some state ↦ elim state.last_positive_observed_at [
      | none ↦ if ltb 0 input.current_population && ltb 0 state.observation_count then 1 else 0
      | some at ↦
          let age = now - at in
          if ltb activity_window_seconds age
          then 0
          else if state.observation_count == 1
          then (if ltb 0 input.current_population then 1 else 0)
          else warmed_score input state age
    ]
  ]

  unfoldable pub with_rank : ℕ → ℕ → RankingInput → Ranked
  unfolding directory_activity_score active_pin
  with_rank now index entry = record {
    entry = entry;
    index = index;
    pinned = active_pin entry.admin_pin now;
    score = directory_activity_score entry now;
    population = min max_population entry.current_population;
  }

  unfoldable pub with_ranks : ℕ → ℕ → List RankingInput → List Ranked
  unfolding with_rank
  with_ranks now index [] = []
  with_ranks now index (e ∷ es) = with_rank now index e ∷ with_ranks now (suc index) es

-- The sign of a comparator that goes on to the next criterion at zero.
abbrev pub then_by : Ordering → Ordering → Ordering
then_by Ordering.lt next = Ordering.lt
then_by Ordering.eq next = next
then_by Ordering.gt next = Ordering.gt

abbrev pub compare_pins : Option AdminPin → Option AdminPin → Ordering
compare_pins none none = Ordering.eq
compare_pins none (some q) = Ordering.gt
compare_pins (some p) none = Ordering.lt
compare_pins (some p) (some q) = compare p.priority q.priority

abbrev pub compare_texts : Text → Text → Ordering
compare_texts s t =
    if text_lt s t then Ordering.lt else if text_lt t s then Ordering.gt else Ordering.eq

-- The comparator of rankDirectoryEntries.
unfoldable pub compare_ranked : Ranked → Ranked → Ordering
compare_ranked left right = then_by (compare_pins left.pinned right.pinned) (
    then_by (compare right.score left.score) (
      then_by (compare right.population left.population) (
        then_by (compare (right.entry).last_seen (left.entry).last_seen) (
          then_by (compare_texts (left.entry).server_id (right.entry).server_id)
            (compare left.index right.index)))))

abbrev pub at_most : Ranked → Ranked → Bool
at_most left right = elim (compare_ranked left right) [ Ordering.gt ↦ false | _ ↦ true ]

-- `Array.prototype.sort`, which is stable.
unfoldable pub insert : Ranked → List Ranked → List Ranked
insert x [] = x ∷ []
insert x (y ∷ ys) = let rest = insert x ys in if at_most x y then x ∷ y ∷ ys else y ∷ rest

unfoldable pub sort_ranked : List Ranked → List Ranked
unfolding insert
sort_ranked [] = []
sort_ranked (x ∷ xs) = insert x (sort_ranked xs)

unfoldable pub rank_directory_entries : Floats → List RankingInput → ℕ → List RankingInput
unfolding sort_ranked with_ranks
rank_directory_entries F entries now = map (λ r. r.entry) (sort_ranked (with_ranks F now 0 entries))
