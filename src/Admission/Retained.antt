-- ===== src/Admission/Retained.antt =====
-- What pruning and claiming leave of the rows of a tag: deletion goes by identifier, and a row
-- that has a tag is neither released nor given other tags.
use metaserver_worker.Common.{
  ℕ, ◌+◌, ◌<◌, ◌≡◌, refl, ap, ◌∙◌, Bool, true, false, not, ◌&&◌, [], ◌∷◌, leb, ◌==◌, any, keep, All,
  Text, arith, ||_left, ||_right, &&_right,
}
use metaserver_worker.Admission.Store.{
  prune_batch, Table, is_expired, prune_before, has_tag, set_tags, has_id, is_unclaimed, without,
  by_age,
}
use metaserver_worker.Admission.{AdmissionRow, rolling_window_ms, replay_prune_batch_size}
use metaserver_worker.Admission.Calls.{IsKeyed}
use metaserver_worker.Admission.Rows.{
  All-zip, any-take-false, any-keep-false, any-keep, All-map, any-by_age,
}

pub IsKeyed-keep :
    (f : AdmissionRow → Bool) (table : Table) → IsKeyed table → IsKeyed (keep f table)
unfolding keep
IsKeyed-keep f [] h = refl
IsKeyed-keep f (row ∷ rows) h =
    ground (arith, IsKeyed-keep f rows, any-keep-false (has_id row.id) f rows)

has_id-set_tags :
    (i id : ℕ) (c p : Text) (table : Table)
    → any (has_id i) (set_tags id c p table) ≡ any (has_id i) table
unfolding set_tags
has_id-set_tags i id c p [] = refl
has_id-set_tags i id c p (row ∷ rows) = ground (arith, has_id-set_tags i id c p rows)

pub IsKeyed-set_tags :
    (id : ℕ) (c p : Text) (table : Table) → IsKeyed table → IsKeyed (set_tags id c p table)
unfolding set_tags
IsKeyed-set_tags id c p [] h = refl
IsKeyed-set_tags id c p (row ∷ rows) h =
    ground (arith, IsKeyed-set_tags id c p rows, has_id-set_tags row.id id c p rows)

-- The row was accepted at the time or later, and has the tag.
abbrev pub retains : Text → ℕ → AdmissionRow → Bool
retains tag at row = has_tag tag row && leb at row.accepted_at_ms

pub has_tag-claimed :
    (tag : Text) (id : ℕ) (row : AdmissionRow)
    → has_tag tag row ≡ true
    → is_unclaimed id row ≡ false
unfolding has_tag is_unclaimed
has_tag-claimed tag id row h = ground arith

pub retains-set_tags :
    (tag : Text) (at id : ℕ) (c p : Text) (table : Table)
    → any (retains tag at) table ≡ true
    → any (retains tag at) (set_tags id c p table) ≡ true
unfolding set_tags
retains-set_tags tag at id c p [] h = h
retains-set_tags tag at id c p (row ∷ rows) h =
    ground (arith, retains-set_tags tag at id c p rows, has_tag-claimed tag id row)

absent-All :
    (i : ℕ) (table : Table)
    → any (has_id i) table ≡ false
    → All (λ (row : AdmissionRow). (row.id == i) ≡ false) table
absent-All i [] h = tt
absent-All i (row ∷ rows) h = (||_left _ _ h, absent-All i rows (||_right _ _ h))

-- The identifier of a row that has not expired is that of no row that has.
abbrev pub IsSpared : ℕ → Table → AdmissionRow → Type 0
IsSpared now table row =
    is_expired now row ≡ false → any (has_id row.id) (keep (is_expired now) table) ≡ false

IsSpared-cons :
    (now : ℕ) (first row : AdmissionRow) (rows : Table)
    → (row.id == first.id) ≡ false
    → IsSpared now rows row
    → IsSpared now (first ∷ rows) row
unfolding keep
IsSpared-cons now first row rows other h live = ground (arith, h live)

IsSpared-head :
    (now : ℕ) (first : AdmissionRow) (rows : Table)
    → any (has_id first.id) rows ≡ false
    → IsSpared now (first ∷ rows) first
unfolding keep
IsSpared-head now first rows h live =
    rw live (any-keep-false (has_id first.id) (is_expired now) rows h)

pub keyed-spares : (now : ℕ) (table : Table) → IsKeyed table → All (IsSpared now table) table
keyed-spares now [] h = tt
keyed-spares now (first ∷ rows) h =
    let alone : any (has_id first.id) rows ≡ false = ground arith in
    (
      IsSpared-head now first rows alone,
      All-zip (λ row. (row.id == first.id) ≡ false) (IsSpared now rows)
          (IsSpared now (first ∷ rows)) rows (λ row. IsSpared-cons now first row rows)
          (absent-All first.id rows alone) (keyed-spares now rows (&&_right _ _ h)),
    )

unexpired :
    (tag : Text) (at now : ℕ) (row : AdmissionRow)
    → now < at + rolling_window_ms
    → retains tag at row ≡ true
    → is_expired now row ≡ false
unfolding is_expired
unexpired tag at now row early h = ground arith

pub not_deleted :
    (now : ℕ) (table : Table) (row : AdmissionRow)
    → any (has_id row.id) (keep (is_expired now) table) ≡ false
    → any (has_id row.id) (prune_batch now table) ≡ false
unfolding prune_batch
not_deleted now table row h =
    any-take-false (has_id row.id) replay_prune_batch_size (by_age (keep (is_expired now) table))
      (any-by_age (has_id row.id) (keep (is_expired now) table) ∙ h)

pub retains-prune_before :
    (tag : Text) (at now : ℕ) (table : Table)
    → now < at + rolling_window_ms
    → IsKeyed table
    → any (retains tag at) table ≡ true
    → any (retains tag at) (prune_before now table).table ≡ true
unfolding prune_before without
retains-prune_before tag at now table early keyed h =
    any-keep (retains tag at) (λ row. not (any (has_id row.id) (prune_batch now table))) table
      (All-map (IsSpared now table)
        (λ row.
          retains tag at row ≡ true → not (any (has_id row.id) (prune_batch now table)) ≡ true)
        table
        (λ row spared k.
          ap not (not_deleted now table row (spared (unexpired tag at now row early k))))
        (keyed-spares now table keyed))
      h
