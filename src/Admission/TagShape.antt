-- ===== src/Admission/TagShape.antt =====
-- The shape of a replay tag, by which SQLite checks it too.
use metaserver_worker.Common.{
  ℕ, ◌+◌, ◌≤◌, ◌≡◌, inl, inr, ap, ◌∙◌, true, none, some, [], ◌∷◌, ◌++◌, ◌==◌, length, Text, codes,
  arith, Bool-cases, Option-cases, &&_right, length-append,
}
use metaserver_worker.Admission.Tags.{cut_at_stop, key_of_tag, after_version, is_digest}

cut_at_stop_lem :
    (t before behind : Text) → cut_at_stop t ≡ some (before, behind) → t ≡ before ++ b'.' ∷ behind
unfolding cut_at_stop
cut_at_stop_lem [] before behind h = ground arith
cut_at_stop_lem (c ∷ t) before behind h = elim (Bool-cases (c == b'.')) [
  | inl stop ↦ ground arith
  | inr other ↦ elim (Option-cases (cut_at_stop t)) [
    | inl nothing ↦ ground arith
    | inr (q, found) ↦ ground (arith, cut_at_stop_lem t q.0 q.1)
  ]
]

is_digest-length : (n : ℕ) (t : Text) → is_digest n t ≡ true → length t + n ≡ 43
unfolding is_digest
is_digest-length n [] h = ground arith
is_digest-length n (c ∷ []) h = ground arith
is_digest-length n (c ∷ d ∷ t) h = omega (arith, is_digest-length (n + 1) (d ∷ t) (&&_right _ _ h))

after_version_lem : (tag body : Text) → after_version tag ≡ some body → tag ≡ codes "v1." ++ body
unfolding after_version
after_version_lem [] body h = ground arith
after_version_lem (a ∷ []) body h = ground arith
after_version_lem (a ∷ b ∷ []) body h = ground arith
after_version_lem (a ∷ b ∷ c ∷ t) body h = ground arith

-- What key_of_tag has found when it answers.
parts :
    (tag key body digest before : Text)
    → after_version tag ≡ some body
    → cut_at_stop body ≡ some (before, digest)
    → key_of_tag tag ≡ some key
    → (before ≡ key) × (is_digest 0 digest ≡ true) × (1 ≤ length before) × (length before ≤ 32)
unfolding key_of_tag
parts tag key body digest before versioned cut h = ground arith

no_body : (tag key : Text) → after_version tag ≡ none → key_of_tag tag ≡ some key → ⊥
unfolding key_of_tag
no_body tag key bad h = ground arith

no_stop :
    (tag key body : Text)
    → after_version tag ≡ some body
    → cut_at_stop body ≡ none
    → key_of_tag tag ≡ some key
    → ⊥
unfolding key_of_tag
no_stop tag key body versioned bad h = ground arith

-- A tag that the pattern accepts is the version, a key identifier of 1 to 32 characters, a full
-- stop and a digest of 43; so its length is between 48 and 79, as SQLite requires.
pub key_of_tag_shape :
    (tag key : Text)
    → key_of_tag tag ≡ some key
    → (digest : Text) × (tag ≡ codes "v1." ++ (key ++ b'.' ∷ digest))
      × (length digest ≡ 43)
      × (1 ≤ length key)
      × (length key ≤ 32)
      × (48 ≤ length tag)
      × (length tag ≤ 79)
key_of_tag_shape tag key h = elim (Option-cases (after_version tag)) [
  | inl bad ↦ absurd (no_body tag key bad h)
  | inr (body, versioned) ↦ elim (Option-cases (cut_at_stop body)) [
    | inl bad ↦ absurd (no_stop tag key body versioned bad h)
    | inr ((before, digest), cut) ↦
        let (same, exact, least, most) = parts tag key body digest before versioned cut h in
        let shape : tag ≡ codes "v1." ++ (key ++ b'.' ∷ digest) =
          after_version_lem tag body versioned
          ∙ ap (λ t. codes "v1." ++ t) (cut_at_stop_lem body before digest cut)
          ∙ ap (λ t. codes "v1." ++ (t ++ b'.' ∷ digest)) same in
        let size = is_digest-length 0 digest exact in
        let total : length tag ≡ length key + 47 =
          omega (arith, ap length shape, length-append key (b'.' ∷ digest), size) in
        (
          digest,
          shape,
          omega (arith, size),
          rw (← same) least,
          rw (← same) most,
          omega (arith, total, ap length same, least),
          omega (arith, total, ap length same, most),
        )
  ]
]
