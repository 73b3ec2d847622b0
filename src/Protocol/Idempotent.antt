-- ===== src/Protocol/Idempotent.antt =====
-- What normalizeIpAddress answers with is normalized.
use metaserver_worker.Common.{
  ℕ, zero, suc, ◌+◌, ◌-◌, ◌≡◌, inl, inr, refl, sym, ap, subst, ◌∙◌, Bool, true, false, not, ◌&&◌,
  ◌||◌, Option, none, some, List, [], ◌∷◌, ◌++◌, map, ltb, ◌==◌, if◌then◌else◌, length, replicate,
  All, Text, arith, Bool-cases, Option-cases, is_hex_digit, length-append, ==_iff, ltb→lt,
}
use metaserver_worker.Protocol.Ipv6.{IsShort, Yields, IsFull, parse_ipv6_words-IsShort}
use metaserver_worker.Protocol.{
  normalize_ipv4, normalize_lower, normalize_halves, parse_ipv6_words, normalize_ip_address,
  join_words, normalize_bare, octets_of, zero_word, has, pad4, without_last, split, join, to_lower,
  split_double, print_decimal, trim_end, without_first, first_is, trim_start, last_is, has_bracket,
}
use metaserver_worker.Protocol.Stable.{IsNormal, eight_words-IsNormal, length-map}
use metaserver_worker.Protocol.Padded.{pad4-IsFull}
use metaserver_worker.Protocol.Ipv4.{octets_bounded, normalize-quad}

pad-All : (ws : List Text) → All IsShort ws → All IsFull (map pad4 ws)
pad-All [] h = tt
pad-All (w ∷ ws) h = (pad4-IsFull w h.0, pad-All ws h.1)

join_words-IsNormal :
    (ws : List Text) → All IsShort ws → length ws ≡ 8 → Yields IsNormal (join_words ws)
unfolding join_words
join_words-IsNormal ws short eight =
    eight_words-IsNormal (map pad4 ws) (pad-All ws short) (length-map pad4 ws ∙ eight)

join_octets-IsNormal :
    (parts : List Text) (octets : List ℕ)
    → octets_of parts ≡ some octets
    → IsNormal (join b'.' (map print_decimal octets))
join_octets-IsNormal parts octets h =
    let (a, b, c, d, same, ha, hb, hc, hd) = octets_bounded parts octets h in
    subst (λ ns. IsNormal (join b'.' (map print_decimal ns))) (sym same)
      (normalize-quad a b c d ha hb hc hd)

normalize_ipv4-IsNormal : (t : Text) → Yields IsNormal (normalize_ipv4 t)
unfolding normalize_ipv4
normalize_ipv4-IsNormal t = elim (Option-cases (octets_of (split b'.' t))) [
  | inl bad ↦ rw (bad, normalize_ipv4) tt
  | inr (octets, read) ↦ rw (read, normalize_ipv4) (join_octets-IsNormal (split b'.' t) octets read)
]

-- The words of a parsed part.
parsed-IsShort :
    (allow : Bool) (t : Text) (ws : List Text) → parse_ipv6_words allow t ≡ some ws → All IsShort ws
parsed-IsShort allow t ws h = subst (Yields (All IsShort)) h (parse_ipv6_words-IsShort allow t)

All-append {ℓ} :
    {A : Type ℓ} (P : A → Type 0) (xs ys : List A) → All P xs → All P ys → All P (xs ++ ys)
All-append P [] ys h k = k
All-append P (x ∷ xs) ys h k = (h.0, All-append P xs ys h.1 k)

zeros-IsShort : (n : ℕ) → All IsShort (replicate n zero_word)
unfolding is_hex_digit
zeros-IsShort zero = tt
zeros-IsShort (suc n) = ((refl, omega arith, omega arith), zeros-IsShort n)

length-replicate {ℓ} : {A : Type ℓ} (n : ℕ) (a : A) → length (replicate n a) ≡ n
length-replicate zero a = refl
length-replicate (suc n) a = ap suc (length-replicate n a)

normalize_whole-IsNormal : (t : Text) → Yields IsNormal (normalize_halves (t ∷ []))
unfolding normalize_halves
normalize_whole-IsNormal t = elim (Option-cases (parse_ipv6_words true t)) [
  | inl bad ↦ rw (bad, normalize_halves) tt
  | inr (ws, read) ↦ elim (Bool-cases (length ws == 8)) [
    | inr other ↦ rw (read, other, normalize_halves) tt
    | inl eight ↦
        rw (read, eight, normalize_halves)
          (join_words-IsNormal ws (parsed-IsShort true t ws read) ((==_iff (length ws) 8).0 eight))
  ]
]

normalize_pair-IsNormal : (s t : Text) → Yields IsNormal (normalize_halves (s ∷ t ∷ []))
unfolding normalize_halves
normalize_pair-IsNormal s t = elim (Option-cases (parse_ipv6_words false s)) [
  | inl bad ↦ rw (bad, normalize_halves) tt
  | inr (left, read) ↦ elim (Option-cases (parse_ipv6_words true t)) [
    | inl bad ↦ rw (read, bad, normalize_halves) tt
    | inr (right, read') ↦ elim (Bool-cases (ltb (length left + length right) 8)) [
      | inr full ↦ rw (read, read', full, normalize_halves) tt
      | inl short ↦
          let n = 8 - (length left + length right) in
          let zeros : List Text = replicate n zero_word in
          rw (read, read', short, normalize_halves)
            (join_words-IsNormal (left ++ (zeros ++ right))
              (All-append IsShort left (zeros ++ right) (parsed-IsShort false s left read) (
                All-append IsShort zeros right (zeros-IsShort n)
                  (parsed-IsShort true t right read')))
              (omega (
                arith,
                length-append left (zeros ++ right),
                length-append zeros right,
                length-replicate n zero_word,
                ltb→lt (length left + length right) 8 short,
              )))
    ]
  ]
]

normalize_halves-IsNormal : (parts : List Text) → Yields IsNormal (normalize_halves parts)
unfolding normalize_halves
normalize_halves-IsNormal [] = tt
normalize_halves-IsNormal (t ∷ []) = normalize_whole-IsNormal t
normalize_halves-IsNormal (s ∷ t ∷ []) = normalize_pair-IsNormal s t
normalize_halves-IsNormal (s ∷ t ∷ u ∷ parts) = tt

normalize_bare-IsNormal : (t : Text) → Yields IsNormal (normalize_bare t)
unfolding normalize_bare
normalize_bare-IsNormal t = elim (Bool-cases (has b'%' t)) [
  | inl zone ↦ rw (zone, normalize_bare) tt
  | inr no_zone ↦ elim (Bool-cases (has b':' t)) [
    | inl six ↦ rw (no_zone, six, normalize_bare) (normalize_halves-IsNormal (split_double t))
    | inr four ↦ rw (no_zone, four, normalize_bare) (normalize_ipv4-IsNormal t)
  ]
]

either-Yields :
    (b : Bool) (x y : Option Text)
    → Yields IsNormal x
    → Yields IsNormal y
    → Yields IsNormal (if b then x else y)
either-Yields true x y h k = h
either-Yields false x y h k = k

normalize_lower-IsNormal : (t : Text) → Yields IsNormal (normalize_lower t)
unfolding normalize_lower
normalize_lower-IsNormal t =
    let bare = without_last (without_first t) in
    let bracketed = first_is b'[' t && last_is b']' t && has b':' bare && not (has_bracket bare) in
    either-Yields (first_is b'[' t || last_is b']' t)
      (if bracketed then normalize_bare bare else none)
      (if has_bracket t then none else normalize_bare t)
      (either-Yields bracketed (normalize_bare bare) none (normalize_bare-IsNormal bare) tt)
      (either-Yields (has_bracket t) none (normalize_bare t) tt (normalize_bare-IsNormal t))

-- An address that normalizeIpAddress answers with, from any text, is its own normal form: it is
-- accepted, and normalized to itself.
pub normalize_ip_address_stable :
    (t u : Text) → normalize_ip_address t ≡ some u → normalize_ip_address u ≡ some u
unfolding normalize_ip_address
normalize_ip_address_stable t u h =
    subst (Yields IsNormal) h (normalize_lower-IsNormal (map to_lower (trim_end (trim_start t))))
