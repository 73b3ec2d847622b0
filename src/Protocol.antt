-- ===== src/Protocol.antt =====
-- src/protocol.ts: normalizeIpAddress and what it calls. Every RequestError that it throws is the
-- same one, the answer none.
pub mod Canonical
pub mod Ipv4
pub mod Ipv6
pub mod Padded
pub mod Joined
pub mod Stable
pub mod Idempotent
pub mod Tests
use metaserver_worker.Common.{
  ◌>>=◌, ℕ, zero, suc, ◌+◌, ◌-◌, ◌*◌, ◌≤◌, ◌<◌, ◌≡◌, ◌≢◌, ◌⊎◌, inl, inr, refl, sym, ap, subst, ◌∙◌,
  Bool, true, false, not, ◌&&◌, ◌||◌, Option, none, some, List, [], ◌∷◌, ◌++◌, map, ltb, leb, ◌==◌,
  if◌then◌else◌, length, every, any, keep, find, take, replicate, All, Text, codes, text_eq, arith,
  Bool-cases, Option-cases, dec_lt, is_some, is_none, ◌↔◌, min, max, ◌/◌, ◌%◌, is_hex_digit,
}

-- White space and line terminators of JavaScript.
unfoldable pub is_space : ℕ → Bool
is_space c =
    leb 9 c && leb c 13
    || c == 32
    || c == 160
    || c == 5760
    || leb 8192 c && leb c 8202
    || c == 8232
    || c == 8233
    || c == 8239
    || c == 8287
    || c == 12288
    || c == 65279

unfoldable pub trim_start : Text → Text
unfolding is_space
trim_start [] = []
trim_start (c ∷ t) = let rest = trim_start t in if is_space c then rest else c ∷ t

-- A character before what is left of a text without its last spaces.
unfoldable pub end_with : ℕ → Text → Text
unfolding is_space
end_with c [] = if is_space c then [] else c ∷ []
end_with c (d ∷ ds) = c ∷ d ∷ ds

unfoldable pub trim_end : Text → Text
unfolding end_with
trim_end [] = []
trim_end (c ∷ t) = end_with c (trim_end t)

-- `toLowerCase` on ASCII. No other character becomes one that an address has, so an address that
-- has one is refused either way.
unfoldable pub to_lower : ℕ → ℕ
to_lower c = if leb b'A' c && leb c b'Z' then c + 32 else c

abbrev pub has : ℕ → Text → Bool
has c t = any (λ d. d == c) t

-- A character before the first of some parts.
unfoldable pub extend_first : ℕ → List Text → List Text
extend_first c [] = (c ∷ []) ∷ []
extend_first c (part ∷ parts) = (c ∷ part) ∷ parts

-- `split` at one character.
unfoldable pub split : ℕ → Text → List Text
unfolding extend_first
split sep [] = [] ∷ []
split sep (c ∷ t) = let rest = split sep t in if c == sep then [] ∷ rest else extend_first c rest

-- `split("::")`
unfoldable pub split_double : Text → List Text
unfolding extend_first
split_double [] = [] ∷ []
split_double (c ∷ []) = (c ∷ []) ∷ []
split_double (c ∷ d ∷ t) =
    let behind = split_double t in
    let rest = split_double (d ∷ t) in
    if c == b':' && d == b':' then [] ∷ behind else extend_first c rest

unfoldable pub join : ℕ → List Text → Text
join sep [] = []
join sep (part ∷ []) = part
join sep (part ∷ other ∷ parts) = part ++ sep ∷ join sep (other ∷ parts)

abbrev pub is_digit : ℕ → Bool
is_digit c = leb b'0' c && leb c b'9'

-- Number.parseInt of decimal digits.
unfoldable pub parse_decimal : ℕ → Text → ℕ
parse_decimal n [] = n
parse_decimal n (c ∷ t) = parse_decimal (n * 10 + (c - b'0')) t

-- String of a number below 1,000.
unfoldable pub print_decimal : ℕ → Text
print_decimal n =
    if ltb n 10
    then (b'0' + n) ∷ []
    else if ltb n 100
    then (b'0' + n / 10) ∷ (b'0' + n % 10) ∷ []
    else (b'0' + n / 100) ∷ (b'0' + n / 10 % 10) ∷ (b'0' + n % 10) ∷ []

-- `/^\d{1,3}$/`, and not above 255.
unfoldable pub is_octet : Text → Bool
unfolding parse_decimal
is_octet t = leb 1 (length t) && leb (length t) 3 && every is_digit t && leb (parse_decimal 0 t) 255

-- The four numbers of an address.
unfoldable pub octets_of : List Text → Option (List ℕ)
unfolding is_octet parse_decimal
octets_of parts =
    if length parts == 4 && every is_octet parts
    then some (map (λ (t : Text). parse_decimal 0 t) parts)
    else none

unfoldable pub normalize_ipv4 : Text → Option Text
unfolding octets_of split join print_decimal
normalize_ipv4 t = do octets ← octets_of (split b'.' t); some (join b'.' (map print_decimal octets))

unfoldable pub drop_zeros : Text → Text
drop_zeros [] = []
drop_zeros (c ∷ t) = let rest = drop_zeros t in if c == b'0' then rest else c ∷ t

-- `.replace(/^0+/, "") || "0"`
abbrev pub or_zero : Text → Text
or_zero [] = b'0' ∷ []
or_zero (c ∷ t) = c ∷ t

unfoldable pub strip_zeros : Text → Text
unfolding drop_zeros
strip_zeros t = or_zero (drop_zeros t)

abbrev pub hex_digit : ℕ → ℕ
hex_digit n = if ltb n 10 then b'0' + n else b'a' + (n - 10)

-- `toString(16)` of a number of 16 bits.
unfoldable pub print_hex : ℕ → Text
unfolding strip_zeros
print_hex n = strip_zeros (
    hex_digit (n / 4096 % 16)
    ∷ hex_digit (n / 256 % 16)
    ∷ hex_digit (n / 16 % 16)
    ∷ hex_digit (n % 16)
    ∷ [])

-- `padStart(4, "0")` of at most four characters.
unfoldable pub pad4 : Text → Text
pad4 t = replicate (4 - length t) b'0' ++ t

-- `/^[0-9a-f]{1,4}$/`
unfoldable pub is_hex_word : Text → Bool
unfolding is_hex_digit
is_hex_word t = leb 1 (length t) && leb (length t) 4 && every is_hex_digit t

-- The two words of an address in dotted decimal.
unfoldable pub words_of_octets : List ℕ → List Text
unfolding print_hex
words_of_octets (a ∷ b ∷ c ∷ d ∷ []) = print_hex (a * 256 + b) ∷ print_hex (c * 256 + d) ∷ []
words_of_octets _ = []

-- One word that is not the last.
unfoldable pub parse_word : Text → Option Text
unfolding is_hex_word strip_zeros
parse_word w = if not (has b'.' w) && is_hex_word w then some (strip_zeros w) else none

unfoldable pub parse_last : Bool → Text → Option (List Text)
unfolding octets_of words_of_octets split
parse_last allow w =
    if has b'.' w
    then (if allow
        then octets_of (split b'.' w) >>= (λ octets. some (words_of_octets octets))
        else none)
    else parse_word w >>= (λ word. some (word ∷ []))

unfoldable pub parse_words : Bool → List Text → Option (List Text)
unfolding parse_last parse_word
parse_words allow [] = some []
parse_words allow (w ∷ []) = parse_last allow w
parse_words allow (w ∷ other ∷ ws) =
    let rest = parse_words allow (other ∷ ws) in
    parse_word w >>= (λ word. rest >>= (λ words. some (word ∷ words)))

unfoldable pub parse_ipv6_words : Bool → Text → Option (List Text)
unfolding parse_words split
parse_ipv6_words allow [] = some []
parse_ipv6_words allow (c ∷ t) = parse_words allow (split b':' (c ∷ t))

unfoldable pub join_words : List Text → Option Text
unfolding pad4 join
join_words words = some (join b':' (map pad4 words))

abbrev pub zero_word : Text
zero_word = b'0' ∷ []

-- The part of an address with a colon, split at its double colons.
unfoldable pub normalize_halves : List Text → Option Text
unfolding parse_ipv6_words join_words
normalize_halves (whole ∷ []) = do
  left ← parse_ipv6_words true whole
  if length left == 8 then join_words left else none
normalize_halves (before ∷ behind ∷ []) = do
  left ← parse_ipv6_words false before
  right ← parse_ipv6_words true behind
  let known = length left + length right
  if ltb known 8 then join_words (left ++ (replicate (8 - known) zero_word ++ right)) else none
normalize_halves _ = none

-- An address with its brackets taken off.
unfoldable pub normalize_bare : Text → Option Text
unfolding normalize_halves split_double normalize_ipv4
normalize_bare t =
    if has b'%' t
    then none
    else if has b':' t
    then normalize_halves (split_double t)
    else normalize_ipv4 t

abbrev pub last_is : ℕ → Text → Bool
last_is c [] = false
last_is c (d ∷ []) = d == c
last_is c (d ∷ e ∷ t) = last_is c (e ∷ t)

abbrev pub without_last : Text → Text
without_last [] = []
without_last (d ∷ []) = []
without_last (d ∷ e ∷ t) = d ∷ without_last (e ∷ t)

abbrev pub without_first : Text → Text
without_first [] = []
without_first (d ∷ t) = t

abbrev pub first_is : ℕ → Text → Bool
first_is c [] = false
first_is c (d ∷ t) = d == c

abbrev pub has_bracket : Text → Bool
has_bracket t = has b'[' t || has b']' t

unfoldable pub normalize_lower : Text → Option Text
unfolding normalize_bare
normalize_lower t =
    let bare = without_last (without_first t) in
    if first_is b'[' t || last_is b']' t
    then (if first_is b'[' t && last_is b']' t && has b':' bare && not (has_bracket bare)
        then normalize_bare bare
        else none)
    else if has_bracket t
    then none
    else normalize_bare t

unfoldable pub normalize_ip_address : Text → Option Text
unfolding normalize_lower trim_start trim_end to_lower
normalize_ip_address t = normalize_lower (map to_lower (trim_end (trim_start t)))
