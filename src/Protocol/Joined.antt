-- ===== src/Protocol/Joined.antt =====
-- Eight full words, joined by colons, are an address that normalizes to itself.
use metaserver_worker.Common.{
  ℕ, ◌≡◌, refl, Bool, true, false, not, ◌&&◌, some, List, [], ◌∷◌, ◌++◌, map, ◌==◌, every, All,
  Text, arith, is_hex_digit, ||_left, ||_right,
}
use metaserver_worker.Protocol.Ipv6.{IsFull}
use metaserver_worker.Protocol.{
  parse_word, split_double, has, join, parse_last, parse_words, is_hex_word, first_is, strip_zeros,
}
use metaserver_worker.Protocol.Canonical.{is_plain}

pub hex_plain : (t : Text) → every is_hex_digit t ≡ true → every is_plain t ≡ true
unfolding is_plain
hex_plain [] h = refl
hex_plain (c ∷ t) h = ground (arith, hex_plain t)

hex_not : (d c : ℕ) → is_hex_digit d ≡ false → is_hex_digit c ≡ true → (c == d) ≡ false
hex_not d c k h = ground arith

pub hex-has :
    (d : ℕ) (t : Text) → is_hex_digit d ≡ false → every is_hex_digit t ≡ true → has d t ≡ false
hex-has d [] k h = refl
hex-has d (c ∷ t) k h = ground (arith, hex_not d c, hex-has d t)

-- No two colons stand together.
abbrev pub no_double : Text → Bool
no_double [] = true
no_double (c ∷ []) = true
no_double (c ∷ d ∷ t) = not (c == b':' && d == b':') && no_double (d ∷ t)

pub split_double-whole : (t : Text) → no_double t ≡ true → split_double t ≡ t ∷ []
unfolding split_double
split_double-whole [] h = refl
split_double-whole (c ∷ []) h = refl
split_double-whole (c ∷ d ∷ t) h = ground (arith, split_double-whole (d ∷ t))

no_double-word :
    (c : ℕ) (w rest : Text)
    → (c == b':') ≡ false
    → has b':' w ≡ false
    → first_is b':' rest ≡ false
    → no_double rest ≡ true
    → no_double (c ∷ (w ++ b':' ∷ rest)) ≡ true
no_double-word c [] [] h k f r = ground arith
no_double-word c [] (d ∷ rest) h k f r = ground arith
no_double-word c (d ∷ w) rest h k f r = ground (arith, no_double-word d w rest)

no_double-plain :
    (c : ℕ) (w : Text) → (c == b':') ≡ false → has b':' w ≡ false → no_double (c ∷ w) ≡ true
no_double-plain c [] h k = refl
no_double-plain c (d ∷ w) h k = ground (arith, no_double-plain d w)

full_colon : (c : ℕ) (w : Text) → IsFull (c ∷ w) → ((c == b':') ≡ false) × (has b':' w ≡ false)
unfolding is_hex_digit
full_colon c w h =
    let none_held = hex-has b':' (c ∷ w) refl h.0 in (||_left _ _ none_held, ||_right _ _ none_held)

-- The joined words neither start with a colon nor have two together.
pub joined_apart :
    (w : Text) (ws : List Text)
    → All IsFull (w ∷ ws)
    → (first_is b':' (join b':' (w ∷ ws)) ≡ false) × (no_double (join b':' (w ∷ ws)) ≡ true)
unfolding join
joined_apart [] ws h = absurd (omega (arith, h.0.1))
joined_apart (c ∷ w) [] h = let (a, b) = full_colon c w h.0 in (a, no_double-plain c w a b)
joined_apart (c ∷ w) (v ∷ ws) h =
    let (a, b) = full_colon c w h.0 in
    let (first, apart) = joined_apart v ws h.1 in
    (a, no_double-word c w (join b':' (v ∷ ws)) a b first apart)

pub has-append : (d : ℕ) (s t : Text) → has d (s ++ d ∷ t) ≡ true
has-append d [] t = ground arith
has-append d (c ∷ s) t = ground (arith, has-append d s t)

full-parse_word : (w : Text) → IsFull w → parse_word w ≡ some (strip_zeros w)
unfolding parse_word is_hex_word is_hex_digit
full-parse_word w h = rw (hex-has b'.' w refl h.0, h.1, h.0) refl

full-parse_last : (w : Text) → IsFull w → parse_last true w ≡ some (strip_zeros w ∷ [])
unfolding parse_last is_hex_digit
full-parse_last w h = rw (hex-has b'.' w refl h.0, parse_last, full-parse_word w h) refl

pub full-parse_words :
    (w : Text) (ws : List Text)
    → All IsFull (w ∷ ws)
    → parse_words true (w ∷ ws) ≡ some (map strip_zeros (w ∷ ws))
unfolding parse_words
full-parse_words w [] h = full-parse_last w h.0
full-parse_words w (v ∷ ws) h = rw (full-parse_word w h.0, full-parse_words v ws h.1) refl
