-- ===== src/Protocol/Stable.antt =====
-- Eight full words, joined, are their own normal form.
use metaserver_worker.Common.{
  suc, ◌≤◌, ◌≡◌, refl, ap, ◌∙◌, true, false, some, List, [], ◌∷◌, map, length, every, All, Text,
  arith, is_hex_digit,
}
use metaserver_worker.Protocol.Ipv6.{IsFull}
use metaserver_worker.Protocol.{
  join, parse_ipv6_words, normalize_ip_address, normalize_halves, strip_zeros, has, parse_words,
  pad4, split, join_words,
}
use metaserver_worker.Protocol.Canonical.{is_plain, normalize-plain}
use metaserver_worker.Protocol.Padded.{pad4-strip_zeros}
use metaserver_worker.Protocol.Joined.{
  hex_plain, has-append, hex-has, full-parse_words, split_double-whole, joined_apart,
}
use metaserver_worker.Protocol.Ipv4.{split-join, every-join}

-- The address is its own normal form.
abbrev pub IsNormal : Text → Type 0
IsNormal u = normalize_ip_address u ≡ some u

pub length-map {ℓ κ} :
    {A : Type ℓ} {B : Type κ} (f : A → B) (xs : List A) → length (map f xs) ≡ length xs
length-map f [] = refl
length-map f (x ∷ xs) = ap suc (length-map f xs)

padded_back : (ws : List Text) → All IsFull ws → map pad4 (map strip_zeros ws) ≡ ws
padded_back [] h = refl
padded_back (w ∷ ws) h = rw (pad4-strip_zeros w h.0, padded_back ws h.1) refl

parse_ipv6_words-split :
    (t : Text) → 1 ≤ length t → parse_ipv6_words true t ≡ parse_words true (split b':' t)
unfolding parse_ipv6_words
parse_ipv6_words-split [] h = absurd (omega arith)
parse_ipv6_words-split (c ∷ t) h = refl

length-join : (w v : Text) (ws : List Text) → 1 ≤ length (join b':' (w ∷ v ∷ ws))
unfolding join
length-join [] v ws = omega arith
length-join (c ∷ w) v ws = omega arith

full_plain : (ws : List Text) → All IsFull ws → All (λ w. every is_plain w ≡ true) ws
full_plain [] h = tt
full_plain (w ∷ ws) h = (hex_plain w h.0.0, full_plain ws h.1)

full_uncolon : (ws : List Text) → All IsFull ws → All (λ w. has b':' w ≡ false) ws
unfolding is_hex_digit
full_uncolon [] h = tt
full_uncolon (w ∷ ws) h = (hex-has b':' w refl h.0.0, full_uncolon ws h.1)

module _ (w v : Text) (ws : List Text) (full : All IsFull (w ∷ v ∷ ws))
    (eight : length (w ∷ v ∷ ws) ≡ 8) where
  abbrev whole : Text
  whole = join b':' (w ∷ v ∷ ws)

  words_of_whole : parse_ipv6_words true whole ≡ some (map strip_zeros (w ∷ v ∷ ws))
  words_of_whole =
      parse_ipv6_words-split whole (length-join w v ws)
      ∙ ap (parse_words true) (split-join b':' w (v ∷ ws) (full_uncolon (w ∷ v ∷ ws) full))
      ∙ full-parse_words w (v ∷ ws) full

  has_colon : has b':' whole ≡ true
  unfolding join
  has_colon = has-append b':' w (join b':' (v ∷ ws))

  halves_of_whole : normalize_halves (whole ∷ []) ≡ some whole
  unfolding normalize_halves join_words
  halves_of_whole =
      rw (words_of_whole, length-map strip_zeros ws, eight)
        (ap (λ ps. some (join b':' ps)) (padded_back (w ∷ v ∷ ws) full))

  joined-IsNormal : IsNormal whole
  unfolding is_plain is_hex_digit
  joined-IsNormal =
      normalize-plain whole
        (every-join is_plain b':' (w ∷ v ∷ ws) refl (full_plain (w ∷ v ∷ ws) full))
      ∙ rw (has_colon, split_double-whole whole (joined_apart w (v ∷ ws) full).1) halves_of_whole

pub eight_words-IsNormal :
    (ws : List Text) → All IsFull ws → length ws ≡ 8 → IsNormal (join b':' ws)
eight_words-IsNormal [] full eight = absurd (omega arith)
eight_words-IsNormal (w ∷ []) full eight = absurd (omega arith)
eight_words-IsNormal (w ∷ v ∷ ws) full eight = joined-IsNormal w v ws full eight
