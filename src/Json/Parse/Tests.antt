-- ===== src/Json/Parse/Tests.antt =====
-- Documents that are parsed.
use gargantua.Common.{
  ◌≡◌, ◌≢◌, refl, List, Bytes, length, some, none, [], ◌∷◌, codes, str_eq, contains,
}
use gargantua.Json.{
  JsonToken, obj, arr, str, prim, string_length, char_length, escape_length, read_hex4, hex_digit,
  literal_length, primitive_length, scan_number, sign_length, integer_length, digits_length,
  some_digits, fraction_length, exponent_length, exponent_sign, is_delimiter, is_space,
  surrogate_follows, utf8_advance, utf8_tail,
}
use gargantua.Json.Parse.Ends.{json_parse-ne-exhausted}
use gargantua.Json.Parse.Nested.{WellNested, json_parse-WellNested}
use gargantua.Json.Grammar.{Element}
use gargantua.Json.Parse.Accepted.{json_parse-Element}
use gargantua.Json.Copy.{
  copied_string, json_copy_str, c_string, copy_loop, escaped_bytes, escaped_point, short_escape,
  utf8_encode, pair_follows,
}
use gargantua.Json.Parse.{
  accepted, refused, exhausted, json_parse, parse_loop, parse_at, after_round, parse_answer,
  scan_round, scan_root, finish_value, spaces_length, scan_frame, scan_state, scan_separator,
  scan_array_element, scan_object_key, key_fits, duplicate_key, duplicate_loop, close_container,
  scan_value, scan_value_at, open_container, token_primitive, token_string, set_end, token_alloc,
}

json_parse-object :
    json_parse (codes "{\"a\": [1, -2.5e3]}") 10
    ≡ accepted (
        record { type = obj; start = 0; end = some 18; parent = none }
        ∷ record { type = str; start = 2; end = some 3; parent = some 0 }
        ∷ record { type = arr; start = 6; end = some 17; parent = some 0 }
        ∷ record { type = prim; start = 7; end = some 8; parent = some 2 }
        ∷ record { type = prim; start = 10; end = some 16; parent = some 2 }
        ∷ [])
unfolding json_parse parse_loop parse_at after_round parse_answer scan_round scan_root finish_value
    spaces_length scan_frame scan_state scan_separator scan_array_element scan_object_key key_fits
    duplicate_key duplicate_loop close_container scan_value scan_value_at open_container
    token_primitive token_string set_end token_alloc string_length char_length escape_length
    read_hex4 hex_digit literal_length primitive_length scan_number sign_length integer_length
    digits_length some_digits fraction_length exponent_length exponent_sign is_delimiter is_space
    surrogate_follows utf8_advance utf8_tail str_eq contains copied_string json_copy_str c_string
    copy_loop escaped_bytes escaped_point short_escape utf8_encode pair_follows
json_parse-object = refl

-- The second key is the first one, written with an escape.
json_parse-duplicate : json_parse (codes "{\"a\":1,\"\\u0061\":2}") 10 ≡ refused
unfolding json_parse parse_loop parse_at after_round parse_answer scan_round scan_root finish_value
    spaces_length scan_frame scan_state scan_separator scan_array_element scan_object_key key_fits
    duplicate_key duplicate_loop close_container scan_value scan_value_at open_container
    token_primitive token_string set_end token_alloc string_length char_length escape_length
    read_hex4 hex_digit literal_length primitive_length scan_number sign_length integer_length
    digits_length some_digits fraction_length exponent_length exponent_sign is_delimiter is_space
    surrogate_follows utf8_advance utf8_tail str_eq contains copied_string json_copy_str c_string
    copy_loop escaped_bytes escaped_point short_escape utf8_encode pair_follows
json_parse-duplicate = refl

-- `[1]`
abbrev one_element : Bytes
one_element = b'[' ∷ b'1' ∷ b']' ∷ []

json_parse-ne-exhausted_example : json_parse one_element 4 ≢ exhausted
json_parse-ne-exhausted_example = json_parse-ne-exhausted one_element 4

abbrev element_tokens : List JsonToken
element_tokens =
    record { type = arr; start = 0; end = some 3; parent = none }
    ∷ record { type = prim; start = 1; end = some 2; parent = some 0 }
    ∷ []

json_parse-one_element : json_parse one_element 4 ≡ accepted element_tokens
unfolding json_parse parse_loop parse_at after_round parse_answer scan_round scan_root finish_value
    spaces_length scan_frame scan_state scan_separator scan_array_element close_container scan_value
    scan_value_at open_container token_primitive token_string set_end token_alloc string_length
    literal_length primitive_length scan_number sign_length integer_length digits_length some_digits
    fraction_length exponent_length exponent_sign is_delimiter is_space str_eq
json_parse-one_element = refl

json_parse-WellNested_example : WellNested (length one_element) 4 element_tokens
json_parse-WellNested_example =
    json_parse-WellNested one_element 4 element_tokens json_parse-one_element

json_parse-Element_example : Element one_element []
json_parse-Element_example = json_parse-Element one_element 4 element_tokens json_parse-one_element
