-- ===== src/Admission/Replay.antt =====
-- A replay tag is accepted once in the rolling window, whatever else happens to the room.
use metaserver_worker.Common.{
  ℕ, ◌+◌, ◌≡◌, ◌⊎◌, inl, inr, ap, true, not, [], ◌∷◌, any, Text, arith, &&_left, List, ◌<◌, ◌≢◌,
  text_eq_iff, false, every, sym, keep, ◌∙◌, subst,
}
use metaserver_worker.Admission.Store.{
  Table, collides, prune_before, without, has_tag, claim_found, consume_and_claim,
  claim_replay_tags, assert_now, with_tags, new_row, has_id,
}
use metaserver_worker.Admission.Calls.{IsKept, IsKeyed, Call, is_before, play, play-keeps}
use metaserver_worker.Admission.Retained.{
  retains, retains-prune_before, IsKeyed-keep, IsKeyed-set_tags, retains-set_tags, has_tag-claimed,
}
use metaserver_worker.Admission.{rolling_window_ms, AdmissionRow, accepted, claimed}
use metaserver_worker.Admission.Outcomes.{admit-Leaves, claim_replay_tags-Leaves, release-Leaves}
use metaserver_worker.Admission.AtOnce.{
  IsFresh, consume_at_once, insert_claimed, consume_and_claim-consume_at_once,
}
use metaserver_worker.Common.Results.{ok}
use metaserver_worker.Admission.Rows.{any-keep, All-pure}

-- The table has a row with the tag, accepted at the time or later.
abbrev pub Retains : Text → ℕ → Table → Type 0
Retains tag at table = IsKeyed table × (any (retains tag at) table ≡ true)

module _ (fresh_id : Table → ℕ) (maximum_retained : ℕ) (fresh : IsFresh fresh_id) where
  IsKeyed-IsKept : (horizon : ℕ) → IsKept IsKeyed fresh_id maximum_retained horizon
  unfolding prune_before without
  IsKeyed-IsKept horizon = record {
    pruned = λ now table early h. IsKeyed-keep _ table h;
    admitted = λ now table h.
        admit-Leaves fresh_id maximum_retained IsKeyed now table h (λ room. rw (fresh table) h);
    claiming = λ id c p table h.
        claim_replay_tags-Leaves IsKeyed id c p table h
          (λ pair free. IsKeyed-set_tags id c p table h);
    released = λ id table h. release-Leaves IsKeyed id table (IsKeyed-keep _ table h);
  }

  Retains-IsKept :
      (tag : Text) (at : ℕ)
      → IsKept (Retains tag at) fresh_id maximum_retained (at + rolling_window_ms)
  Retains-IsKept tag at =
      let keyed = IsKeyed-IsKept (at + rolling_window_ms) in
      record {
        pruned = λ now table early h.
            (keyed.pruned now table early h.0, retains-prune_before tag at now table early h.0 h.1);
        admitted = λ now table h.
            admit-Leaves fresh_id maximum_retained (Retains tag at) now table h
              (λ room. (rw (fresh table) h.0, ground arith));
        claiming = λ id c p table h.
            claim_replay_tags-Leaves (Retains tag at) id c p table h (λ pair free.
              (IsKeyed-set_tags id c p table h.0, retains-set_tags tag at id c p table h.1));
        released = λ id table h. release-Leaves (Retains tag at) id table (
          IsKeyed-keep _ table h.0,
          any-keep (retains tag at) _ table
              (All-pure _ table (λ row k. ap not (has_tag-claimed tag id row (&&_left _ _ k)))) h.1,
        );
      }

-- A tag that is retained collides.
retains-collides :
    (tag c p : Text) (at : ℕ) (table : Table)
    → (tag ≡ c) ⊎ (tag ≡ p)
    → any (retains tag at) table ≡ true
    → collides c p table ≡ true
unfolding collides
retains-collides tag c p at [] same h = cc
retains-collides tag c p at (row ∷ rows) (inl same) h =
    ground (arith, retains-collides tag c p at rows (inl same), ap (λ t. has_tag t row) same)
retains-collides tag c p at (row ∷ rows) (inr same) h =
    ground (arith, retains-collides tag c p at rows (inr same), ap (λ t. has_tag t row) same)

insert_claimed-accepted :
    (fresh_id : Table → ℕ) (maximum_retained now id : ℕ) (c p : Text) (table first : Table)
    → insert_claimed fresh_id maximum_retained now c p table ≡ ok (accepted id, first)
    → (first ≡ with_tags c p (new_row fresh_id maximum_retained now table) ∷ table)
      × (collides c p table ≡ false)
unfolding insert_claimed
insert_claimed-accepted fresh_id maximum_retained now id c p table first h = ground arith

consume_at_once-accepted :
    (fresh_id : Table → ℕ) (maximum_retained now id : ℕ) (c p : Text) (table first : Table)
    → consume_at_once fresh_id maximum_retained now c p table ≡ ok (accepted id, first)
    → insert_claimed fresh_id maximum_retained now c p (prune_before now table).table
      ≡ ok (accepted id, first)
unfolding consume_at_once assert_now
consume_at_once-accepted fresh_id maximum_retained now id c p table first h = ground arith

written-retains :
    (tag c p : Text) (row : AdmissionRow) (table : Table)
    → (tag ≡ c) ⊎ (tag ≡ p)
    → any (retains tag row.accepted_at_ms) (with_tags c p row ∷ table) ≡ true
unfolding has_tag
written-retains tag c p row table (inl same) = ground (arith, text_eq_iff c tag)
written-retains tag c p row table (inr same) = ground (arith, text_eq_iff p tag)

claim_found-claimed :
    (found : Table) (id : ℕ) (c p : Text) (table second : Table)
    → claim_found found id c p table ≡ ok (claimed, second)
    → collides c p table ≡ false
unfolding claim_found
claim_found-claimed [] id c p table second h = ground arith
claim_found-claimed (row ∷ []) id c p table second h = ground arith
claim_found-claimed (a ∷ b ∷ rows) id c p table second h = ground arith

claim_replay_tags-claimed :
    (id : ℕ) (c p : Text) (table second : Table)
    → claim_replay_tags id c p table ≡ ok (claimed, second)
    → collides c p table ≡ false
unfolding claim_replay_tags
claim_replay_tags-claimed id c p table second h =
    ground (arith, claim_found-claimed (keep (has_id id) table) id c p table second)

module _ (fresh_id : Table → ℕ) (maximum_retained : ℕ) (fresh : IsFresh fresh_id) where
  accepted-Retains :
      (now id : ℕ) (tag c p : Text) (table first : Table)
      → IsKeyed table
      → consume_and_claim fresh_id maximum_retained now c p table ≡ ok (accepted id, first)
      → (tag ≡ c) ⊎ (tag ≡ p)
      → Retains tag now first
  unfolding prune_before without
  accepted-Retains now id tag c p table first keyed accepts same =
      let pruned = (prune_before now table).table in
      let at_once =
        sym (consume_and_claim-consume_at_once fresh_id maximum_retained fresh now c p table)
        ∙ accepts in
      let (written, free) =
        insert_claimed-accepted fresh_id maximum_retained now id c p pruned first
          (consume_at_once-accepted fresh_id maximum_retained now id c p table first at_once) in
      let row = new_row fresh_id maximum_retained now pruned in
      subst (Retains tag now) (sym written)
        (rw (fresh pruned) (IsKeyed-keep _ table keyed), written-retains tag c p row pruned same)

  Retains-refuses :
      (at later id : ℕ) (tag c p : Text) (table second : Table)
      → Retains tag at table
      → later < at + rolling_window_ms
      → (tag ≡ c) ⊎ (tag ≡ p)
      → consume_and_claim fresh_id maximum_retained later c p table ≢ ok (accepted id, second)
  Retains-refuses at later id tag c p table second (keyed, held) early same accepts =
      let pruned = (prune_before later table).table in
      let at_once =
        sym (consume_and_claim-consume_at_once fresh_id maximum_retained fresh later c p table)
        ∙ accepts in
      let (written, free) =
        insert_claimed-accepted fresh_id maximum_retained later id c p pruned second
          (consume_at_once-accepted fresh_id maximum_retained later id c p table second at_once) in
      let taken =
        retains-collides tag c p at pruned same
          (retains-prune_before tag at later table early keyed held) in
      cc

  -- Once consumeAndClaim has accepted a pair of tags, no pair that has one of the two tags is
  -- accepted by consumeAndClaim or claimed by claimReplayTags before the rolling window has
  -- passed, whatever calls of the store's methods are made before it, the times of which are
  -- within the window too. Stored identifiers are distinct, and a new row has an unused one.
  pub replay_once :
      (now later id other : ℕ) (tag c p c' p' : Text) (calls : List Call)
      (table first second : Table)
      → IsKeyed table
      → consume_and_claim fresh_id maximum_retained now c p table ≡ ok (accepted id, first)
      → (tag ≡ c) ⊎ (tag ≡ p)
      → (tag ≡ c') ⊎ (tag ≡ p')
      → every (is_before (now + rolling_window_ms)) calls ≡ true
      → later < now + rolling_window_ms
      → (consume_and_claim fresh_id maximum_retained later c' p'
            (play fresh_id maximum_retained calls first)
          ≢ ok (accepted other, second))
        × (claim_replay_tags other c' p' (play fresh_id maximum_retained calls first)
            ≢ ok (claimed, second))
  replay_once now later id other tag c p c' p' calls table first second keyed accepts same again
        within early =
      let held =
        play-keeps (Retains tag now) fresh_id maximum_retained (now + rolling_window_ms)
          (Retains-IsKept fresh_id maximum_retained fresh tag now) calls first within
          (accepted-Retains now id tag c p table first keyed accepts same) in
      (
        Retains-refuses now later other tag c' p' _ second held early again,
        λ claims.
            let free = claim_replay_tags-claimed other c' p' _ second claims in
            let taken = retains-collides tag c' p' now _ again held.1 in cc,
      )
