-- ===== src/AccessBudget/Counting.antt =====
-- What a budget of src/access-budget.ts counts.
use metaserver_worker.Common.{
  ℕ, ◌+◌, ◌≤◌, ◌<◌, ◌≡◌, inl, inr, refl, Bool, ◌&&◌, Option, none, some, leb, ◌==◌, if◌then◌else◌,
  arith, Bool-cases, ltb, ◌||◌, true,
}
use metaserver_worker.AccessBudget.{
  AccessRow, start_of, AccessScope, drop_expired, duration_of, routes, resolve, ltb, upserted, true,
}

-- The requests that a row counts in the window that begins at `start`.
unfoldable pub count_in : ℕ → Option AccessRow → ℕ
count_in start none = 0
count_in start (some row) = if row.window_start == start then row.request_count else 0

-- A row whose window is not a later one, and that expires with its window.
unfoldable pub IsPast : AccessScope → ℕ → Option AccessRow → Type 0
IsPast c now none = Unit
IsPast c now (some row) =
    (row.window_start ≤ start_of c now) × (row.expires_at ≡ row.window_start + duration_of c)

pub window_open : (c : AccessScope) (now : ℕ) → now < start_of c now + duration_of c
unfolding start_of duration_of
window_open routes now = omega arith
window_open resolve now = omega arith

-- Deleting expired rows changes no count of the current window.
pub count_in-drop_expired :
    (c : AccessScope) (chosen : Bool) (now : ℕ) (row : Option AccessRow)
    → IsPast c now row
    → count_in (start_of c now) (drop_expired chosen now row) ≡ count_in (start_of c now) row
unfolding count_in drop_expired IsPast
count_in-drop_expired c chosen now none past = refl
count_in-drop_expired c chosen now (some row) past = ground (arith, window_open c now)

pub drop_expired-IsPast :
    (c : AccessScope) (chosen : Bool) (now : ℕ) (row : Option AccessRow)
    → IsPast c now row
    → IsPast c now (drop_expired chosen now row)
unfolding drop_expired IsPast
drop_expired-IsPast c chosen now none past = past
drop_expired-IsPast c chosen now (some row) past =
    elim (Bool-cases (chosen && leb row.expires_at now)) [
      | inl gone ↦ rw gone tt
      | inr kept ↦ rw kept past
    ]

-- The row that counts one request more.
pub record IsCounted (start end before : ℕ) (row : AccessRow) : Type 0 where
  pub begun : row.window_start ≡ start
  pub ends : row.expires_at ≡ end
  pub count : row.request_count ≡ before + 1

fits :
    (c : AccessScope) (limit now : ℕ) (row : AccessRow)
    → IsPast c now (some row)
    → count_in (start_of c now) (some row) < limit
    → (ltb row.window_start (start_of c now)
        || ((row.window_start == start_of c now) && ltb row.request_count limit))
      ≡ true
unfolding count_in IsPast
fits c limit now row past below = ground arith

pub upserted_admits :
    (c : AccessScope) (limit now end : ℕ) (row : Option AccessRow)
    → IsPast c now row
    → count_in (start_of c now) row < limit
    → (new : AccessRow) × (upserted limit (start_of c now) end row ≡ some new)
      × IsCounted (start_of c now) end (count_in (start_of c now) row) new
unfolding count_in upserted IsPast
upserted_admits c limit now end none past below =
    (_, refl, record { begun = refl; ends = refl; count = refl })
upserted_admits c limit now end (some row) past below = (
  record {
    window_start = start_of c now;
    expires_at = end;
    request_count = if row.window_start == start_of c now then row.request_count + 1 else 1;
  },
  rw (fits c limit now row past below) refl,
  record { begun = refl; ends = refl; count = ground arith },
)

pub upserted_refuses :
    (limit start end : ℕ) (row : Option AccessRow)
    → 0 < limit
    → limit ≤ count_in start row
    → upserted limit start end row ≡ none
unfolding count_in upserted
upserted_refuses limit start end none pos full = absurd (omega arith)
upserted_refuses limit start end (some row) pos full = ground arith

pub count_in-IsCounted :
    (start end before : ℕ) (new : AccessRow)
    → IsCounted start end before new
    → count_in start (some new) ≡ before + 1
unfolding count_in
count_in-IsCounted start end before new counts =
    let begun = counts.begun in let count = counts.count in ground arith
