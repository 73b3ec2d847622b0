-- ===== src/Protocol/Ipv4.antt =====
-- Dotted decimal: what is printed is read again, and printed the same.
use metaserver_worker.Common.{
  ℕ, zero, suc, ◌<◌, ◌≡◌, refl, ap, ◌∙◌, Bool, true, false, not, ◌&&◌, List, [], ◌∷◌, ◌++◌, ◌==◌,
  every, All, Text, arith, is_hex_digit, ||_left, ||_right, map, some,
}
use metaserver_worker.Protocol.{
  split, join, is_octet, print_decimal, has, parse_decimal, normalize_ip_address, octets_of,
  normalize_ipv4,
}
use metaserver_worker.Protocol.Canonical.{is_plain, normalize-plain}

-- The numbers under a bound, downwards.
countdown : ℕ → List ℕ
countdown zero = []
countdown (suc top) = top ∷ countdown top

every-countdown :
    (good : ℕ → Bool) (bound value : ℕ)
    → every good (countdown bound) ≡ true
    → value < bound
    → good value ≡ true
unfolding countdown
every-countdown good zero value checked low = absurd (omega arith)
every-countdown good (suc top) value checked low = ground (arith, every-countdown good top value)

-- What an octet's text is good for.
reads_back : ℕ → Bool
reads_back n =
    is_octet (print_decimal n)
    && (parse_decimal 0 (print_decimal n) == n)
    && every is_plain (print_decimal n)
    && not (has b'.' (print_decimal n))
    && not (has b':' (print_decimal n))

octets_read_back : every reads_back (countdown 256) ≡ true
unfolding countdown reads_back is_octet print_decimal parse_decimal is_plain is_hex_digit
octets_read_back = refl

-- The parts of a joined text, where no part has the separator.
split-append :
    (sep : ℕ) (part rest : Text)
    → has sep part ≡ false
    → split sep (part ++ sep ∷ rest) ≡ part ∷ split sep rest
unfolding split
split-append sep [] rest h = ground arith
split-append sep (c ∷ part) rest h =
    rw
      (
        ||_left (c == sep) (has sep part) h,
        split-append sep part rest (||_right (c == sep) (has sep part) h),
      )
      refl

split-part : (sep : ℕ) (part : Text) → has sep part ≡ false → split sep part ≡ part ∷ []
unfolding split
split-part sep [] h = refl
split-part sep (c ∷ part) h =
    rw
      (
        ||_left (c == sep) (has sep part) h,
        split-part sep part (||_right (c == sep) (has sep part) h),
      )
      refl

pub split-join :
    (sep : ℕ) (part : Text) (parts : List Text)
    → All (λ p. has sep p ≡ false) (part ∷ parts)
    → split sep (join sep (part ∷ parts)) ≡ part ∷ parts
unfolding join
split-join sep part [] h = split-part sep part h.0
split-join sep part (other ∷ parts) h =
    split-append sep part (join sep (other ∷ parts)) h.0
    ∙ ap (λ ps. part ∷ ps) (split-join sep other parts h.1)

pub every-append :
    (p : ℕ → Bool) (s t : Text) → every p s ≡ true → every p t ≡ true → every p (s ++ t) ≡ true
every-append p [] t h k = k
every-append p (c ∷ s) t h k = ground (arith, every-append p s t)

pub every-join :
    (p : ℕ → Bool) (sep : ℕ) (parts : List Text)
    → p sep ≡ true
    → All (λ part. every p part ≡ true) parts
    → every p (join sep parts) ≡ true
unfolding join
every-join p sep [] k h = refl
every-join p sep (part ∷ []) k h = h.0
every-join p sep (part ∷ other ∷ parts) k h =
    every-append p part (sep ∷ join sep (other ∷ parts)) h.0
      (rw k (every-join p sep (other ∷ parts) k h.1))

pub has-not : (d : ℕ) (t : Text) → every (λ c. not (c == d)) t ≡ true → has d t ≡ false
has-not d [] h = refl
has-not d (c ∷ t) h = ground (arith, has-not d t)

every-not : (d : ℕ) (t : Text) → has d t ≡ false → every (λ c. not (c == d)) t ≡ true
every-not d [] h = refl
every-not d (c ∷ t) h = ground (arith, every-not d t)

-- The text of an octet.
record IsPrinted (n : ℕ) : Type 0 where
  is_octet_text : is_octet (print_decimal n) ≡ true
  reads : parse_decimal 0 (print_decimal n) ≡ n
  plain : every is_plain (print_decimal n) ≡ true
  no_stop : has b'.' (print_decimal n) ≡ false
  no_colon : every (λ c. not (c == b':')) (print_decimal n) ≡ true

printed : (n : ℕ) → n < 256 → IsPrinted n
unfolding reads_back
printed n lt =
    let all = every-countdown reads_back 256 n octets_read_back lt in
    record {
      is_octet_text = ground arith;
      reads = ground arith;
      plain = ground arith;
      no_stop = ground arith;
      no_colon = every-not b':' (print_decimal n) (ground arith);
    }

module _ (a b c d : ℕ) (ha : a < 256) (hb : b < 256) (hc : c < 256) (hd : d < 256) where
  abbrev quad : List Text
  quad = map print_decimal (a ∷ b ∷ c ∷ d ∷ [])

  pub octets_of-quad : octets_of quad ≡ some (a ∷ b ∷ c ∷ d ∷ [])
  unfolding octets_of
  octets_of-quad =
      rw
        (
          (printed a ha).is_octet_text,
          (printed b hb).is_octet_text,
          (printed c hc).is_octet_text,
          (printed d hd).is_octet_text,
          (printed a ha).reads,
          (printed b hb).reads,
          (printed c hc).reads,
          (printed d hd).reads,
        )
        refl

  normalize_ipv4-quad : normalize_ipv4 (join b'.' quad) ≡ some (join b'.' quad)
  unfolding normalize_ipv4
  normalize_ipv4-quad =
      rw
        (
          split-join b'.' (print_decimal a) (map print_decimal (b ∷ c ∷ d ∷ [])) (
            (printed a ha).no_stop,
            ((printed b hb).no_stop, ((printed c hc).no_stop, ((printed d hd).no_stop, tt))),
          ),
          octets_of-quad,
        )
        refl

  -- An address that was printed from four octets normalizes to itself.
  pub normalize-quad : normalize_ip_address (join b'.' quad) ≡ some (join b'.' quad)
  unfolding is_plain is_hex_digit
  normalize-quad =
      let plain = every-join is_plain b'.' quad refl (
        (printed a ha).plain,
        ((printed b hb).plain, ((printed c hc).plain, ((printed d hd).plain, tt))),
      ) in
      let no_colon = has-not b':' (join b'.' quad) (
        every-join (λ e. not (e == b':')) b'.' quad refl
          (
            (printed a ha).no_colon,
            ((printed b hb).no_colon, ((printed c hc).no_colon, ((printed d hd).no_colon, tt))),
          )) in
      normalize-plain (join b'.' quad) plain ∙ rw no_colon normalize_ipv4-quad

pub octets_bounded :
    (parts : List Text) (octets : List ℕ)
    → octets_of parts ≡ some octets
    → (a : ℕ) × (b : ℕ) × (c : ℕ) × (d : ℕ) × (octets ≡ a ∷ b ∷ c ∷ d ∷ [])
      × (a < 256)
      × (b < 256)
      × (c < 256)
      × (d < 256)
unfolding octets_of is_octet
octets_bounded (p ∷ q ∷ r ∷ s ∷ []) octets h = (
  parse_decimal 0 p,
  parse_decimal 0 q,
  parse_decimal 0 r,
  parse_decimal 0 s,
  ground arith,
  ground arith,
  ground arith,
  ground arith,
  ground arith,
)
octets_bounded [] octets h = absurd (ground arith)
octets_bounded (p ∷ []) octets h = absurd (ground arith)
octets_bounded (p ∷ q ∷ []) octets h = absurd (ground arith)
octets_bounded (p ∷ q ∷ r ∷ []) octets h = absurd (ground arith)
octets_bounded (p ∷ q ∷ r ∷ s ∷ t ∷ parts) octets h = absurd (ground arith)
