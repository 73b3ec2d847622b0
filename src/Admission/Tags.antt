-- ===== src/Admission/Tags.antt =====
-- REPLAY_TAG_PATTERN and isReplayTagPair.
use metaserver_worker.Common.{
  ℕ, ◌+◌, Bool, false, not, ◌&&◌, ◌||◌, Option, none, some, [], ◌∷◌, leb, ◌==◌, if◌then◌else◌,
  length, every, any, Text, codes, text_eq, ◌>>=◌,
}

-- `[A-Za-z0-9_-]`
unfoldable pub is_base64_url : ℕ → Bool
is_base64_url c =
    leb b'A' c && leb c b'Z'
    || leb b'a' c && leb c b'z'
    || leb b'0' c && leb c b'9'
    || c == b'_'
    || c == b'-'

-- `[AEIMQUYcgkosw048]`
abbrev pub final_digits : Text
final_digits = codes "AEIMQUYcgkosw048"

-- What stands before the first full stop, and what stands behind it.
unfoldable pub cut_at_stop : Text → Option (Text × Text)
cut_at_stop [] = none
cut_at_stop (c ∷ t) =
    let rest = cut_at_stop t in
    if c == b'.'
    then some ([], t)
    else elim rest [ none ↦ none | some (before, after) ↦ some (c ∷ before, after) ]

-- 42 characters and a final one that leaves the last bits of 32 bytes zero.
unfoldable pub is_digest : ℕ → Text → Bool
is_digest n [] = false
is_digest n (c ∷ []) = (n == 42) && any (λ d. c == d) final_digits
is_digest n (c ∷ d ∷ t) = is_base64_url c && is_digest (n + 1) (d ∷ t)

unfoldable pub after_version : Text → Option Text
after_version (v ∷ one ∷ stop ∷ t) =
    if v == b'v' && one == b'1' && stop == b'.' then some t else none
after_version _ = none

-- The key identifier of a tag, the pattern's group.
unfoldable pub key_of_tag : Text → Option Text
unfolding cut_at_stop is_digest after_version is_base64_url
key_of_tag tag = do
  body ← after_version tag
  (key, digest) ← cut_at_stop body
  if leb 1 (length key) && leb (length key) 32 && every is_base64_url key && is_digest 0 digest
      then some key
      else none

abbrev pub different_keys : Option Text → Option Text → Bool
different_keys (some k) (some l) = not (text_eq k l)
different_keys _ _ = false

unfoldable pub is_replay_tag_pair : Text → Text → Bool
unfolding key_of_tag
is_replay_tag_pair current previous =
    not (text_eq current previous) && different_keys (key_of_tag current) (key_of_tag previous)
