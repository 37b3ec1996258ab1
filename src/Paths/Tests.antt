-- ===== src/Paths/Tests.antt =====
-- Paths that are split and decoded, and paths that are refused.
use gargantua.Common.{◌<◌, none, some, codes, contains, str_eq, length, ◌≡◌, ◌↔◌, refl, arith}
use gargantua.Paths.{
  max_text, hex_digit_value, decoded_byte, decode_round, decode_loop, url_decode, split_query,
  encoded_slash_here, has_encoded_slash, next_part, bad_part, parts_loop, path_is_clean, split_path,
}
use gargantua.Paths.Decode.{Decodes, url_decode_iff}
use gargantua.Paths.Safe.{Splits, split_path-Splits}

url_decode-space : url_decode (codes "/a%20b") ≡ some (codes "/a b")
unfolding url_decode decode_loop decode_round decoded_byte hex_digit_value
url_decode-space = refl

url_decode-nul : url_decode (codes "/a%00") ≡ none
unfolding url_decode decode_loop decode_round decoded_byte hex_digit_value
url_decode-nul = refl

split_path-users :
    split_path (codes "/users/a%41?x=1") ≡ some (codes "/users/aA", some (codes "x=1"))
unfolding split_path split_query contains has_encoded_slash encoded_slash_here url_decode
    decode_loop decode_round decoded_byte hex_digit_value path_is_clean parts_loop next_part
    bad_part str_eq
split_path-users = refl

split_path-dots : split_path (codes "/a/%2e%2e/b") ≡ none
unfolding split_path split_query contains has_encoded_slash encoded_slash_here url_decode
    decode_loop decode_round decoded_byte hex_digit_value path_is_clean parts_loop next_part
    bad_part str_eq
split_path-dots = refl

url_decode_iff_example :
    (url_decode (codes "/a%20b") ≡ some (codes "/a b")) ↔ Decodes (codes "/a%20b") (codes "/a b")
url_decode_iff_example = url_decode_iff (codes "/a%20b") (codes "/a b") (omega arith)

short : length (split_query (codes "/users/a%41?x=1")).0 < max_text
unfolding split_query
short = omega arith

split_path-Splits_example :
    Splits (codes "/users/a%41?x=1") (codes "/users/aA") (some (codes "x=1"))
split_path-Splits_example =
    split_path-Splits (codes "/users/a%41?x=1") (codes "/users/aA") (some (codes "x=1")) short
      split_path-users
