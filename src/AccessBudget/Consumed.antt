-- ===== src/AccessBudget/Consumed.antt =====
-- What a request of src/access-budget.ts leaves in the budget that it draws on and in the others.
use metaserver_worker.Common.{
  ℕ, ◌+◌, ◌≤◌, ◌<◌, ◌≡◌, ◌⊎◌, inl, inr, refl, sym, ap, subst, ◌∙◌, Bool, true, false, ◌&&◌, Option,
  none, some, Text, text_eq, arith, dec_lt, text_eq_iff, ◌-◌, ◌/◌, ◌*◌,
}
use metaserver_worker.AccessBudget.{
  limit_of, same_profile, AccessProfile, AccessScope, same_scope, routes, AccessTable, resolve,
  answer_of, Spent, consume_access_budget, AccessRow, delete_expired, upserted, store_row, classic,
  game, start_of, duration_of, err, committed, BatchEnd, Failure, http_failure, rejected,
  rate_limited, unsuccessful, retry_in,
}
use metaserver_worker.Http.{rate_limited}
use metaserver_worker.AccessBudget.Counting.{
  IsPast, drop_expired-IsPast, count_in, upserted_admits, upserted_refuses, count_in-drop_expired,
  count_in-IsCounted, window_open,
}
use metaserver_worker.Http.Requests.{Failure, http_failure, retry_in}
use metaserver_worker.Common.Results.{Result, ok, err}

abbrev pub is_key : AccessProfile → Text → AccessScope → AccessProfile → Text → AccessScope → Bool
is_key p s c p' s' c' = same_profile p p' && text_eq s s' && same_scope c c'

is_key_refl : (p : AccessProfile) (s : Text) (c : AccessScope) → is_key p s c p s c ≡ true
unfolding same_profile same_scope
is_key_refl classic s routes = rw ((text_eq_iff s s).1 refl) refl
is_key_refl classic s resolve = rw ((text_eq_iff s s).1 refl) refl
is_key_refl game s routes = rw ((text_eq_iff s s).1 refl) refl
is_key_refl game s resolve = rw ((text_eq_iff s s).1 refl) refl

limit_positive : (c : AccessScope) → 0 < limit_of c
unfolding limit_of
limit_positive routes = omega arith
limit_positive resolve = omega arith

-- The length of a window in seconds, and the requests that are admitted in one.
abbrev pub window_seconds : AccessScope → ℕ
window_seconds routes = 3600
window_seconds resolve = 60

abbrev pub window_requests : AccessScope → ℕ
window_requests routes = 64
window_requests resolve = 60

limit_known : (c : AccessScope) → limit_of c ≡ window_requests c
unfolding limit_of
limit_known routes = refl
limit_known resolve = refl

next_window :
    (c : AccessScope) (now : ℕ)
    → (start_of c now + duration_of c ≡ (now / window_seconds c + 1) * window_seconds c)
      × (start_of c now + duration_of c ≤ now + window_seconds c)
unfolding start_of duration_of
next_window routes now = (omega arith, omega arith)
next_window resolve now = (omega arith, omega arith)

-- The answer and the count of a budget that counted `before` requests in the current window. A
-- refusal names the delay until the next multiple of the window's length.
pub Settles : AccessScope → ℕ → ℕ → Result Failure (Unit {0}) → ℕ → Type 0
Settles c now before answer after =
    ((answer ≡ ok tt) × (before < window_requests c) × (after ≡ before + 1))
    ⊎ ((delay : ℕ) × (answer ≡ err (http_failure rate_limited (retry_in delay)))
        × (1 ≤ delay)
        × (delay ≤ window_seconds c)
        × (now + delay ≡ (now / window_seconds c + 1) * window_seconds c)
        × (window_requests c ≤ before)
        × (after ≡ before))

module _ (chosen : AccessProfile → Text → AccessScope → Bool) (rows : AccessTable)
    (p : AccessProfile) (s : Text) (c : AccessScope) (now : ℕ) where
  abbrev kept : AccessTable
  kept = delete_expired chosen now rows

  abbrev spent : Spent
  spent = consume_access_budget committed chosen rows p s c now

  abbrev row : Option AccessRow
  row = upserted (limit_of c) (start_of c now) (start_of c now + duration_of c) (kept p s c)

  kept-Past : IsPast c now (rows p s c) → IsPast c now (kept p s c)
  unfolding delete_expired
  kept-Past = drop_expired-IsPast c (chosen p s c) now (rows p s c)

  count_in-kept :
      IsPast c now (rows p s c)
      → count_in (start_of c now) (kept p s c) ≡ count_in (start_of c now) (rows p s c)
  unfolding delete_expired
  count_in-kept = count_in-drop_expired c (chosen p s c) now (rows p s c)

  spent-admitted :
      (new : AccessRow) → row ≡ some new → (spent.answer ≡ ok tt) × (spent.table p s c ≡ some new)
  unfolding consume_access_budget store_row answer_of
  spent-admitted new h = (rw h refl, rw (h, is_key_refl p s c) refl)

  spent-refused :
      row ≡ none
      → (spent.answer
          ≡ err (http_failure rate_limited (retry_in ((start_of c now + duration_of c) - now))))
        × (spent.table p s c ≡ kept p s c)
  unfolding consume_access_budget store_row answer_of
  spent-refused h = (rw h refl, rw h refl)

  admitted-Settles :
      IsPast c now (rows p s c)
      → count_in (start_of c now) (rows p s c) < limit_of c
      → Settles c now
          (count_in (start_of c now) (rows p s c))
          spent.answer
          (count_in (start_of c now) (spent.table p s c))
  unfolding Settles
  admitted-Settles past below =
      let new =
        upserted_admits c (limit_of c) now (start_of c now + duration_of c) (kept p s c)
          (kept-Past past) (subst (λ n. n < limit_of c) (sym (count_in-kept past)) below) in
      let done = spent-admitted new.0 new.1 in
      let limit = limit_known c in
      inl (
        done.0,
        omega (arith, below, limit),
        ap (count_in (start_of c now)) done.1
            ∙ count_in-IsCounted (start_of c now) _ _ new.0 new.2
            ∙ ap (λ n. n + 1) (count_in-kept past),
      )

  refused-Settles :
      IsPast c now (rows p s c)
      → limit_of c ≤ count_in (start_of c now) (rows p s c)
      → Settles c now
          (count_in (start_of c now) (rows p s c))
          spent.answer
          (count_in (start_of c now) (spent.table p s c))
  unfolding Settles
  refused-Settles past full =
      let done = spent-refused (
        upserted_refuses (limit_of c) (start_of c now) _ (kept p s c) (limit_positive c)
          (subst (λ n. limit_of c ≤ n) (sym (count_in-kept past)) full)) in
      let open_until = window_open c now in
      let next = next_window c now in
      let limit = limit_known c in
      inr (
        (start_of c now + duration_of c) - now,
        done.0,
        omega arith,
        omega (arith, next.1),
        omega (arith, next.0),
        omega (arith, full, limit),
        ap (count_in (start_of c now)) done.1 ∙ count_in-kept past,
      )

  -- Where the row of the budget is of no later window and expires with its window, a request whose
  -- batch commits is admitted and counted in the current window where the limit was not reached;
  -- where it was, it fails with the error `rate_limited`, whose delay is the time that is left of
  -- the window, and the count is as it was; whichever expired rows the batch deletes.
  pub consume_access_budget-Settles :
      IsPast c now (rows p s c)
      → Settles c now
          (count_in (start_of c now) (rows p s c))
          spent.answer
          (count_in (start_of c now) (spent.table p s c))
  unfolding Settles
  consume_access_budget-Settles past =
      elim (dec_lt (count_in (start_of c now) (rows p s c)) (limit_of c)) [
        | yes below ↦ admitted-Settles past below
        | no full ↦ refused-Settles past (omega arith)
      ]

store_row-other :
    (p : AccessProfile) (s : Text) (c : AccessScope) (row : Option AccessRow) (table : AccessTable)
    (p' : AccessProfile) (s' : Text) (c' : AccessScope)
    → is_key p s c p' s' c' ≡ false
    → store_row p s c row table p' s' c' ≡ table p' s' c'
unfolding store_row
store_row-other p s c none table p' s' c' other = refl
store_row-other p s c (some row) table p' s' c' other = rw other refl

-- A request draws on no other budget, however its batch ends: where the row of that one is of no
-- later window and expires with its window, its count in its current window is what it was.
pub consume_access_budget-count_in_other :
    (batch : BatchEnd) (chosen : AccessProfile → Text → AccessScope → Bool) (rows : AccessTable)
    (p : AccessProfile) (s : Text) (c : AccessScope) (now : ℕ) (p' : AccessProfile) (s' : Text)
    (c' : AccessScope)
    → is_key p s c p' s' c' ≡ false
    → IsPast c' now (rows p' s' c')
    → count_in
        (start_of c' now)
        ((consume_access_budget batch chosen rows p s c now).table p' s' c')
      ≡ count_in (start_of c' now) (rows p' s' c')
unfolding consume_access_budget delete_expired
consume_access_budget-count_in_other rejected chosen rows p s c now p' s' c' other past = refl
consume_access_budget-count_in_other unsuccessful chosen rows p s c now p' s' c' other past = refl
consume_access_budget-count_in_other committed chosen rows p s c now p' s' c' other past =
    let kept = delete_expired chosen now rows in
    let row =
      upserted (limit_of c) (start_of c now) (start_of c now + duration_of c) (kept p s c) in
    ap (count_in (start_of c' now)) (store_row-other p s c row kept p' s' c' other)
    ∙ count_in-drop_expired c' (chosen p' s' c') now (rows p' s' c') past
