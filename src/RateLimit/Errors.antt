-- ===== src/RateLimit/Errors.antt =====
-- What src/rate-limit.ts throws, and how it sorts the failures of its dependencies.
-- A value that is thrown by a dependency and is no built-in error is the chain of its causes, up to
-- the first that repeats: the message of each, where it has one. Messages are ASCII.
use metaserver_worker.Common.{
  ℕ, zero, suc, ◌+◌, Bool, true, false, ◌&&◌, ◌||◌, Option, none, some, List, [], ◌∷◌, ◌++◌, map,
  leb, ◌==◌, if◌then◌else◌, any, Text, codes, min, max,
}

abbrev pub seconds_per_day : ℕ
seconds_per_day = 86_400

abbrev pub maximum_retry_after_seconds : ℕ
maximum_retry_after_seconds = seconds_per_day

pub data LimitReason : Type 0 where
  burst_limit_exceeded request_budget_exceeded : LimitReason

pub data Dependency : Type 0 where
  d1 native_rate_limit : Dependency

-- The fields of `RequestBudgetExceeded`.
pub record Exceeded : Type 0 where
  pub scope : Text
  pub reason : LimitReason
  pub retry_after_seconds : ℕ
  pub reset_at : Option ℕ
  pub limit : Option ℕ

pub data Thrown : Type 0 where
  type_error range_error syntax_error : Thrown
  plain_error : List (Option Text) → Thrown
  exceeded : Exceeded → Thrown
  unavailable : Dependency → Thrown → Thrown

-- A difference below zero is clamped to 1 as zero is.
unfoldable pub clamp_retry_after : ℕ → ℕ
clamp_retry_after seconds = max 1 (min maximum_retry_after_seconds seconds)

-- The constructor of `RequestBudgetExceeded`.
unfoldable pub new_exceeded : Text → LimitReason → ℕ → Option ℕ → Option ℕ → Thrown
unfolding clamp_retry_after
new_exceeded scope reason seconds reset limit = exceeded (record {
  scope = scope;
  reason = reason;
  retry_after_seconds = clamp_retry_after seconds;
  reset_at = reset;
  limit = limit;
})

-- At most `depth` links of the chain are read.
unfoldable pub error_messages : ℕ → List (Option Text) → List Text
error_messages zero links = []
error_messages (suc depth) [] = []
error_messages (suc depth) (none ∷ links) = error_messages depth links
error_messages (suc depth) (some m ∷ links) = m ∷ error_messages depth links

-- `.join("\n")`
unfoldable pub join_lines : List Text → Text
join_lines [] = []
join_lines (m ∷ []) = m
join_lines (m ∷ n ∷ ms) = m ++ (10 ∷ join_lines (n ∷ ms))

unfoldable pub to_lower : ℕ → ℕ
to_lower c = if leb b'A' c && leb c b'Z' then c + 32 else c

unfoldable pub starts_with : Text → Text → Bool
starts_with [] t = true
starts_with (p ∷ ps) [] = false
starts_with (p ∷ ps) (c ∷ t) = (p == c) && starts_with ps t

-- `detail.includes(marker)`
unfoldable pub includes : Text → Text → Bool
unfolding starts_with
includes marker [] = starts_with marker []
includes marker (c ∷ t) = starts_with marker (c ∷ t) || includes marker t

abbrev pub failure_markers : List Text
failure_markers =
    codes "d1_type_error:"
    ∷ codes "d1_columnnotfound:"
    ∷ codes "d1_column_notfound:"
    ∷ codes "sqlite_constraint"
    ∷ codes "constraint failed"
    ∷ codes "no such table"
    ∷ codes "no such column"
    ∷ codes "syntax error"
    ∷ codes "no sql statements detected"
    ∷ []

-- The messages along the causes of an error; those of this module's own errors are fixed texts.
links_of : Thrown → List (Option Text)
links_of (plain_error links) = links
links_of (exceeded e) = some (codes "Request budget exceeded") ∷ []
links_of (unavailable d cause) =
    some (codes "Request control dependency is unavailable") ∷ links_of cause
links_of type_error = []
links_of range_error = []
links_of syntax_error = []

unfoldable pub is_d1_programming_or_integrity_failure : Thrown → Bool
unfolding error_messages join_lines to_lower includes links_of
is_d1_programming_or_integrity_failure type_error = true
is_d1_programming_or_integrity_failure range_error = true
is_d1_programming_or_integrity_failure syntax_error = true
is_d1_programming_or_integrity_failure e =
    let detail = map to_lower (join_lines (error_messages 4 (links_of e))) in
    any (λ marker. includes marker detail) failure_markers

-- What `executeDependency` throws when the operation throws `e`.
unfoldable pub dependency_failure : Dependency → Thrown → Thrown
dependency_failure d1 e = if is_d1_programming_or_integrity_failure e then e else unavailable d1 e
dependency_failure native_rate_limit e = unavailable native_rate_limit e
