-- ===== src/Protocol/Ipv6.antt =====
-- The words of an IPv6 address: what is parsed is short, and what is padded is parsed again.
use metaserver_worker.Common.{
  ◌>>=◌, ℕ, ◌+◌, ◌*◌, ◌≤◌, ◌<◌, ◌≡◌, inl, inr, refl, Bool, true, not, ◌&&◌, Option, none, some,
  List, [], ◌∷◌, ◌==◌, length, every, All, Text, arith, Bool-cases, ◌/◌, ◌%◌, is_hex_digit,
  &&_right,
}
use metaserver_worker.Protocol.{
  or_zero, parse_ipv6_words, parse_last, parse_word, strip_zeros, parse_words, print_hex, hex_digit,
  drop_zeros, words_of_octets, split, is_hex_word, has, octets_of,
}

-- A word without needless zeros, and one with all of its four digits.
abbrev pub IsShort : Text → Type 0
IsShort w = (every is_hex_digit w ≡ true) × (1 ≤ length w) × (length w ≤ 4)

abbrev pub IsFull : Text → Type 0
IsFull w = (every is_hex_digit w ≡ true) × (length w ≡ 4)

every-drop_zeros :
    (t : Text) → every is_hex_digit t ≡ true → every is_hex_digit (drop_zeros t) ≡ true
unfolding drop_zeros
every-drop_zeros [] h = refl
every-drop_zeros (c ∷ t) h = elim (Bool-cases (c == b'0')) [
  | inl nought ↦ rw nought (every-drop_zeros t (&&_right _ _ h))
  | inr other ↦ rw other h
]

pub length-drop_zeros : (t : Text) → length (drop_zeros t) ≤ length t
unfolding drop_zeros
length-drop_zeros [] = omega arith
length-drop_zeros (c ∷ t) = ground (arith, length-drop_zeros t)

or_zero-IsShort : (t : Text) → every is_hex_digit t ≡ true → length t ≤ 4 → IsShort (or_zero t)
unfolding is_hex_digit
or_zero-IsShort [] h k = (refl, omega arith, omega arith)
or_zero-IsShort (c ∷ t) h k = (h, omega arith, k)

pub strip_zeros-IsShort :
    (t : Text) → every is_hex_digit t ≡ true → length t ≤ 4 → IsShort (strip_zeros t)
unfolding strip_zeros
strip_zeros-IsShort t h k =
    or_zero-IsShort (drop_zeros t) (every-drop_zeros t h) (omega (arith, length-drop_zeros t, k))

hex_digit-is_hex_digit : (n : ℕ) → n < 16 → is_hex_digit (hex_digit n) ≡ true
unfolding is_hex_digit
hex_digit-is_hex_digit n h = ground arith

print_hex-IsShort : (n : ℕ) → IsShort (print_hex n)
unfolding print_hex
print_hex-IsShort n =
    strip_zeros-IsShort
      (hex_digit (n / 4096 % 16)
        ∷ hex_digit (n / 256 % 16)
        ∷ hex_digit (n / 16 % 16)
        ∷ hex_digit (n % 16)
        ∷ [])
      (rw
        (
          hex_digit-is_hex_digit (n / 4096 % 16) (omega arith),
          hex_digit-is_hex_digit (n / 256 % 16) (omega arith),
          hex_digit-is_hex_digit (n / 16 % 16) (omega arith),
          hex_digit-is_hex_digit (n % 16) (omega arith),
        )
        refl)
      (omega arith)

words_of_octets-IsShort : (octets : List ℕ) → All IsShort (words_of_octets octets)
unfolding words_of_octets
words_of_octets-IsShort [] = tt
words_of_octets-IsShort (a ∷ []) = tt
words_of_octets-IsShort (a ∷ b ∷ []) = tt
words_of_octets-IsShort (a ∷ b ∷ c ∷ []) = tt
words_of_octets-IsShort (a ∷ b ∷ c ∷ d ∷ []) =
    (print_hex-IsShort (a * 256 + b), (print_hex-IsShort (c * 256 + d), tt))
words_of_octets-IsShort (a ∷ b ∷ c ∷ d ∷ e ∷ rest) = tt

-- What is parsed is short.
abbrev pub Yields {ℓ} : {A : Type ℓ} → (A → Type 0) → Option A → Type 0
Yields P none = Unit
Yields P (some a) = P a

parse_word-IsShort : (w : Text) → Yields IsShort (parse_word w)
unfolding parse_word is_hex_word
parse_word-IsShort w = elim (Bool-cases (not (has b'.' w) && is_hex_word w)) [
  | inr bad ↦ rw (bad, parse_word) tt
  | inl good ↦ rw (good, parse_word) (strip_zeros-IsShort w (ground arith) (ground arith))
]

one_word : (o : Option Text) → Yields IsShort o → Yields (All IsShort) (o >>= (λ w. some (w ∷ [])))
one_word none h = tt
one_word (some w) h = (h, tt)

of_octets : (o : Option (List ℕ)) → Yields (All IsShort) (o >>= (λ ns. some (words_of_octets ns)))
of_octets none = tt
of_octets (some ns) = words_of_octets-IsShort ns

parse_last-IsShort : (allow : Bool) (w : Text) → Yields (All IsShort) (parse_last allow w)
unfolding parse_last
parse_last-IsShort allow w = elim (Bool-cases (has b'.' w)) [
  | inr plain ↦ rw (plain, parse_last) (one_word (parse_word w) (parse_word-IsShort w))
  | inl dotted ↦ elim (Bool-cases allow) [
    | inl allowed ↦ rw (dotted, allowed, parse_last) (of_octets (octets_of (split b'.' w)))
    | inr forbidden ↦ rw (dotted, forbidden, parse_last) tt
  ]
]

more_words :
    (o : Option Text) (rest : Option (List Text))
    → Yields IsShort o
    → Yields (All IsShort) rest
    → Yields (All IsShort) (o >>= (λ w. rest >>= (λ ws. some (w ∷ ws))))
more_words none rest h k = tt
more_words (some w) none h k = tt
more_words (some w) (some ws) h k = (h, k)

parse_words-IsShort : (allow : Bool) (ws : List Text) → Yields (All IsShort) (parse_words allow ws)
unfolding parse_words
parse_words-IsShort allow [] = tt
parse_words-IsShort allow (w ∷ []) = parse_last-IsShort allow w
parse_words-IsShort allow (w ∷ other ∷ ws) =
    more_words (parse_word w) (parse_words allow (other ∷ ws)) (parse_word-IsShort w)
      (parse_words-IsShort allow (other ∷ ws))

pub parse_ipv6_words-IsShort :
    (allow : Bool) (t : Text) → Yields (All IsShort) (parse_ipv6_words allow t)
unfolding parse_ipv6_words
parse_ipv6_words-IsShort allow [] = tt
parse_ipv6_words-IsShort allow (c ∷ t) = parse_words-IsShort allow (split b':' (c ∷ t))
