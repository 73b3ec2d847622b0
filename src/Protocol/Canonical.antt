-- ===== src/Protocol/Canonical.antt =====
-- The texts that normalization answers with, and the steps of it that leave them alone.
use metaserver_worker.Common.{
  ℕ, ◌≡◌, refl, Bool, true, false, ◌||◌, [], ◌∷◌, map, ◌==◌, if◌then◌else◌, every, Text, arith,
  is_hex_digit, &&_right, &&_left, ap, ◌∙◌,
}
use metaserver_worker.Protocol.{
  first_is, trim_start, last_is, has, trim_end, normalize_ip_address, to_lower, is_space,
  normalize_lower, normalize_bare, normalize_halves, split_double, normalize_ipv4, end_with,
}

-- A digit of either base, a full stop or a colon.
unfoldable pub is_plain : ℕ → Bool
unfolding is_hex_digit
is_plain c = is_hex_digit c || c == b'.' || c == b':'

plain_not_space : (c : ℕ) → is_plain c ≡ true → is_space c ≡ false
unfolding is_plain is_space is_hex_digit
plain_not_space c h = ground arith

plain_lower : (c : ℕ) → is_plain c ≡ true → to_lower c ≡ c
unfolding is_plain to_lower is_hex_digit
plain_lower c h = ground arith

plain_other : (c d : ℕ) → is_plain c ≡ true → is_plain d ≡ false → (c == d) ≡ false
plain_other c d h k = ground arith

trim_start-plain : (t : Text) → every is_plain t ≡ true → trim_start t ≡ t
unfolding trim_start
trim_start-plain [] h = refl
trim_start-plain (c ∷ t) h = ground (arith, plain_not_space c)

end_with-plain : (c : ℕ) (t : Text) → is_plain c ≡ true → end_with c t ≡ c ∷ t
unfolding end_with
end_with-plain c [] h = ground (arith, plain_not_space c)
end_with-plain c (d ∷ t) h = refl

trim_end-plain : (t : Text) → every is_plain t ≡ true → trim_end t ≡ t
unfolding trim_end
trim_end-plain [] h = refl
trim_end-plain (c ∷ t) h =
    ap (end_with c) (trim_end-plain t (&&_right _ _ h)) ∙ end_with-plain c t (&&_left _ _ h)

lower-plain : (t : Text) → every is_plain t ≡ true → map to_lower t ≡ t
lower-plain [] h = refl
lower-plain (c ∷ t) h = ground (arith, plain_lower c, lower-plain t)

pub has-plain : (d : ℕ) (t : Text) → is_plain d ≡ false → every is_plain t ≡ true → has d t ≡ false
has-plain d [] k h = refl
has-plain d (c ∷ t) k h = ground (arith, plain_other c d, has-plain d t)

last_is-plain :
    (d : ℕ) (t : Text) → is_plain d ≡ false → every is_plain t ≡ true → last_is d t ≡ false
last_is-plain d [] k h = refl
last_is-plain d (c ∷ []) k h = plain_other c d (&&_left _ _ h) k
last_is-plain d (c ∷ e ∷ t) k h = last_is-plain d (e ∷ t) k (&&_right _ _ h)

first_is-plain :
    (d : ℕ) (t : Text) → is_plain d ≡ false → every is_plain t ≡ true → first_is d t ≡ false
first_is-plain d [] k h = refl
first_is-plain d (c ∷ t) k h = plain_other c d (&&_left _ _ h) k

-- Trimming, lower case, brackets and zones do nothing to a plain text.
pub normalize-plain :
    (t : Text)
    → every is_plain t ≡ true
    → normalize_ip_address t
      ≡ (if has b':' t then normalize_halves (split_double t) else normalize_ipv4 t)
unfolding normalize_ip_address normalize_lower normalize_bare is_plain is_hex_digit
normalize-plain t h =
    rw (trim_start-plain t h, trim_end-plain t h, lower-plain t h)
      (rw
        (
          first_is-plain b'[' t refl h,
          last_is-plain b']' t refl h,
          has-plain b'[' t refl h,
          has-plain b']' t refl h,
          has-plain b'%' t refl h,
        )
        refl)
