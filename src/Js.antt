-- ===== src/Js.antt =====
-- Untrusted JavaScript values: what JSON.parse and a structured clone return, and the tests that
-- the sources make on them. An array is its list of elements: it has no holes and no other
-- properties. An object is the list of its own properties; a key stands in it once.
use metaserver_worker.Common.{
  ℕ, Bool, true, false, ◌&&◌, ◌||◌, List, [], ◌∷◌, leb, ◌==◌, if◌then◌else◌, length, every, Text,
  text_eq, is_hex, is_hex_digit, max_safe_integer, ◌++◌, replicate, suc, Option, some, none,
}

mutual
  -- `other_number` stands for every number that is no non-negative integer.
  pub data JsValue : Type 0 where
    undefined null other_number : JsValue
    boolean : Bool → JsValue
    number : ℕ → JsValue
    string : Text → JsValue
    array : Items → JsValue
    object : Fields → JsValue

  pub data Items : Type 0 where
    nil : Items
    cons : JsValue → Items → Items

  pub data Fields : Type 0 where
    end : Fields
    field : Text → JsValue → Fields → Fields

abbrev pub items : Items → List JsValue
items nil = []
items (cons v vs) = v ∷ items vs

abbrev pub items_of : List JsValue → Items
items_of [] = nil
items_of (v ∷ vs) = cons v (items_of vs)

abbrev pub fields_of : List (Text × JsValue) → Fields
fields_of [] = end
fields_of ((k, v) ∷ rest) = field k v (fields_of rest)

-- `value[key]`
unfoldable pub get : Text → Fields → JsValue
get key end = undefined
get key (field k v rest) = if text_eq k key then v else get key rest

-- `Object.hasOwn(value, key)`
unfoldable pub has_own : Fields → Text → Bool
has_own end key = false
has_own (field k v rest) key = text_eq k key || has_own rest key

-- `Object.keys(value).length`
abbrev pub key_count : Fields → ℕ
key_count end = 0
key_count (field k v rest) = suc (key_count rest)

unfoldable pub has_exact_keys : Fields → List Text → Bool
unfolding has_own
has_exact_keys value expected =
    (key_count value == length expected) && every (has_own value) expected

unfoldable pub is_null : JsValue → Bool
is_null null = true
is_null _ = false

-- `value === true || value === false`, by its type
unfoldable pub is_boolean : JsValue → Bool
is_boolean (boolean b) = true
is_boolean _ = false

-- `value === n`
unfoldable pub is_number : ℕ → JsValue → Bool
is_number n (number m) = m == n
is_number n _ = false

-- `value === text`
unfoldable pub is_string : Text → JsValue → Bool
is_string t (string s) = text_eq s t
is_string t _ = false

unfoldable pub is_bounded_integer : JsValue → ℕ → ℕ → Bool
is_bounded_integer (number n) minimum maximum =
    leb n max_safe_integer && leb minimum n && leb n maximum
is_bounded_integer _ minimum maximum = false

unfoldable pub is_timestamp : JsValue → Bool
is_timestamp (number n) = leb n max_safe_integer
is_timestamp _ = false

unfoldable pub is_positive_integer : JsValue → Bool
is_positive_integer (number n) = leb n max_safe_integer && leb 1 n
is_positive_integer _ = false

unfoldable pub is_hex64 : JsValue → Bool
is_hex64 (string s) = is_hex 64 s
is_hex64 _ = false

-- A pattern that fixes the class of each code unit.
unfoldable pub matches : List (ℕ → Bool) → Text → Bool
matches [] [] = true
matches [] (c ∷ t) = false
matches (p ∷ ps) [] = false
matches (p ∷ ps) (c ∷ t) = p c && matches ps t

abbrev hex_run : ℕ → List (ℕ → Bool)
hex_run n = replicate n is_hex_digit

abbrev dash : ℕ → Bool
dash c = c == b'-'

-- `/^[0-9a-f]{8}-[0-9a-f]{4}-4[0-9a-f]{3}-[89ab][0-9a-f]{3}-[0-9a-f]{12}$/`
unfoldable pub is_uuid : Text → Bool
unfolding matches is_hex_digit
is_uuid = matches (
    hex_run 8
    ++ (dash
        ∷ (hex_run 4
            ++ (dash
                ∷ (λ c. c == b'4')
                ∷ (hex_run 3
                    ++ (dash
                        ∷ (λ c. leb b'8' c && leb c b'9' || leb b'a' c && leb c b'b')
                        ∷ (hex_run 3 ++ (dash ∷ hex_run 12))))))))

unfoldable pub is_connection_id : JsValue → Bool
is_connection_id (string s) = is_uuid s
is_connection_id _ = false

-- A value whose type a test has established.
unfoldable pub number_of : JsValue → ℕ
number_of (number n) = n
number_of _ = 0

unfoldable pub text_of : JsValue → Text
text_of (string s) = s
text_of _ = []

unfoldable pub boolean_of : JsValue → Bool
boolean_of (boolean b) = b
boolean_of _ = false

-- `string | null` and `number | null`.
abbrev pub text_or_null : Option Text → JsValue
text_or_null none = null
text_or_null (some s) = string s

abbrev pub number_or_null : Option ℕ → JsValue
number_or_null none = null
number_or_null (some n) = number n

unfoldable pub nullable_text : JsValue → Option Text
nullable_text (string s) = some s
nullable_text _ = none

unfoldable pub nullable_number : JsValue → Option ℕ
nullable_number (number n) = some n
nullable_number _ = none

-- Opens the tests and readers of single values.
unfoldable pub js_tests : Unit {0}
unfolding is_null is_boolean is_number is_string is_bounded_integer is_timestamp is_positive_integer
    is_hex64 is_connection_id number_of text_of boolean_of nullable_text nullable_number
js_tests = tt
