-- ===== src/Admission/Tests.antt =====
-- One room's admissions on concrete times and tags.
use metaserver_worker.Common.{
  ℕ, ◌+◌, ◌≤◌, ◌≡◌, refl, false, some, [], ◌∷◌, ◌++◌, any, replicate, Text, codes, text_eq, arith,
  max, keep, length, Option, List, ◌≢◌, true, inl, inr, ◌⊎◌,
}
use metaserver_worker.Admission.Store.{
  Table, consume_and_claim, assert_now, has_id, prune, is_admission_id, earliest_retained_expiry_ms,
  is_expired, prune_before, claim_replay_tags,
}
use metaserver_worker.Admission.AtOnce.{IsFresh, consume_at_once, consume_and_claim-consume_at_once}
use metaserver_worker.Admission.{AdmissionRow, accepted, ConsumeResult, Option, claimed}
use metaserver_worker.Admission.Tags.{is_replay_tag_pair, key_of_tag}
use metaserver_worker.Admission.Schema.{initialize, Database}
use metaserver_worker.Admission.Register.{Serves, in_use, consume_and_claim-Serves}
use metaserver_worker.Admission.Calls.{play, Call, consume_call, release_call, prune_call, IsKeyed}
use metaserver_worker.Admission.TagShape.{key_of_tag_shape}
use metaserver_worker.Admission.Restart.{initialize-play}
use metaserver_worker.Admission.Expiry.{is_due, earliest_retained_expiry_exact}
use metaserver_worker.Admission.Replay.{replay_once}
use metaserver_worker.Admission.Pruning.{is_live, prune_exact}
use metaserver_worker.Common.Results.{ok}

-- SQLite's choice for an INTEGER PRIMARY KEY: one more than the greatest.
next_id : Table → ℕ
next_id [] = 1
next_id (row ∷ rows) = max (row.id + 1) (next_id rows)

above_next_id : (n : ℕ) (table : Table) → next_id table ≤ n → any (has_id n) table ≡ false
unfolding next_id
above_next_id n [] h = refl
above_next_id n (row ∷ rows) h = ground (arith, above_next_id n rows (omega arith))

next_id-IsFresh : IsFresh next_id
next_id-IsFresh table = above_next_id (next_id table) table (omega arith)

abbrev tag_of : Text → Text
tag_of key = codes "v1." ++ (key ++ b'.' ∷ replicate 43 b'A')

abbrev current_tag : Text
current_tag = tag_of (codes "k2")

abbrev previous_tag : Text
previous_tag = tag_of (codes "k1")

abbrev rotated_tag : Text
rotated_tag = tag_of (codes "k3")

abbrev admitted_row : AdmissionRow
admitted_row = record {
  id = 1;
  accepted_at_ms = 1_000;
  current = some current_tag;
  previous = some previous_tag;
}

first_claim :
    consume_and_claim next_id 5 1_000 current_tag previous_tag []
    ≡ ok (accepted 1, admitted_row ∷ [])
unfolding consume_and_claim assert_now is_replay_tag_pair next_id text_eq keep is_admission_id
first_claim = refl

-- The client's ticket after the key was rotated: its previous tag is the former current one.
again_claim :
    consume_and_claim next_id 5 2_000 rotated_tag current_tag (admitted_row ∷ [])
    ≡ ok (ConsumeResult.replay, admitted_row ∷ [])
unfolding consume_and_claim assert_now is_replay_tag_pair next_id text_eq keep is_admission_id
again_claim = refl

consume_and_claim-consume_at_once_example :
    consume_and_claim next_id 5 2_000 rotated_tag current_tag (admitted_row ∷ [])
    ≡ consume_at_once next_id 5 2_000 rotated_tag current_tag (admitted_row ∷ [])
consume_and_claim-consume_at_once_example =
    consume_and_claim-consume_at_once next_id 5 next_id-IsFresh 2_000 rotated_tag current_tag
      (admitted_row ∷ [])

-- In between another client is admitted, the first row is asked to be released, and pruning runs.
abbrev busy_calls : List Call
busy_calls = consume_call 1_500 ∷ release_call 1 ∷ prune_call 80_000_000 ∷ []

replay_once_example :
    (consume_and_claim next_id 5 2_000 rotated_tag current_tag
        (play next_id 5 busy_calls (admitted_row ∷ []))
      ≢ ok (accepted 2, []))
    × (claim_replay_tags 2 rotated_tag current_tag (play next_id 5 busy_calls (admitted_row ∷ []))
        ≢ ok (claimed, []))
replay_once_example =
    replay_once next_id 5 next_id-IsFresh 1_000 2_000 1 2 current_tag current_tag previous_tag
      rotated_tag current_tag busy_calls [] (admitted_row ∷ []) [] refl first_claim (inl refl)
      (inr refl) refl (omega arith)

consume_and_claim-Serves_example :
    Serves rotated_tag current_tag
      (in_use (prune_before 2_000 (admitted_row ∷ [])).table)
      ConsumeResult.replay
      (in_use (admitted_row ∷ []))
consume_and_claim-Serves_example =
    consume_and_claim-Serves next_id 5 2_000 rotated_tag current_tag ConsumeResult.replay
      (admitted_row ∷ []) (admitted_row ∷ []) next_id-IsFresh again_claim

abbrev stored : Database
stored = record { versions = 1 ∷ []; admissions = admitted_row ∷ [] }

stored-initialized : initialize true stored ≡ ok stored
unfolding initialize text_eq
stored-initialized = refl

initialize-play_example :
    (initialize true (record stored { admissions = play next_id 5 busy_calls (admitted_row ∷ []) })
      ≡ ok (record stored { admissions = play next_id 5 busy_calls (admitted_row ∷ []) }))
    × IsKeyed (play next_id 5 busy_calls (admitted_row ∷ []))
initialize-play_example =
    initialize-play next_id 5 true busy_calls stored stored next_id-IsFresh (omega arith) refl
      stored-initialized

earliest_retained_expiry_exact_example :
    (at : Option ℕ) × (earliest_retained_expiry_ms (admitted_row ∷ []) ≡ ok at)
    × ((now : ℕ) → any (is_expired now) (admitted_row ∷ []) ≡ is_due at now)
earliest_retained_expiry_exact_example = earliest_retained_expiry_exact (admitted_row ∷ []) refl

abbrev one_left : Table
one_left = admitted_row ∷ []

abbrev none_left : Table
none_left = []

abbrev one_deleted : ℕ
one_deleted = 1

pruned_row : prune 86_401_000 (admitted_row ∷ []) ≡ ok (1, [])
unfolding prune assert_now keep
pruned_row = refl

prune_exact_example :
    (1 ≤ 256)
    × (length none_left + 1 ≡ length one_left)
    × ((one_deleted ≡ 256) ⊎ (any (is_expired 86_401_000) none_left ≡ false))
    × (keep (is_live 86_401_000) none_left ≡ keep (is_live 86_401_000) one_left)
prune_exact_example = prune_exact 86_401_000 one_left one_deleted none_left refl pruned_row

current_key : key_of_tag current_tag ≡ some (codes "k2")
unfolding key_of_tag
current_key = refl

key_of_tag_shape_example :
    (digest : Text) × (current_tag ≡ codes "v1." ++ (codes "k2" ++ b'.' ∷ digest))
    × (length digest ≡ 43)
    × (1 ≤ length (codes "k2"))
    × (length (codes "k2") ≤ 32)
    × (48 ≤ length current_tag)
    × (length current_tag ≤ 79)
key_of_tag_shape_example = key_of_tag_shape current_tag (codes "k2") current_key
