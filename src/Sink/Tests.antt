-- ===== src/Sink/Tests.antt =====
-- A string written and read.
use gargantua.Common.{◌≡◌, refl, some, none, true, false, Bytes, [], ◌∷◌, arith}
use gargantua.Json.Copy.{json_copy_str}
use gargantua.Json.Parse.{token_string}
use gargantua.Sink.{
  sink_init, sink_add_escaped, escaped_loop, flush, sink_escape, sink_add_bytes, is_plain,
}
use gargantua.Sink.Utf8.{Utf8, nil, one, two}
use gargantua.Sink.RoundTrip.{quoted, in_front, behind, string_token, token_string-sink_add_escaped}

-- `a"é`
abbrev quote_text : Bytes
quote_text = b'a' ∷ b'"' ∷ 0xC3 ∷ 0xA9 ∷ []

abbrev quote_written : Bytes
quote_written = b'a' ∷ b'\\' ∷ b'"' ∷ 0xC3 ∷ 0xA9 ∷ []

quote_added :
    sink_add_escaped (sink_init 20) quote_text
    ≡ record { cap = 20; text = quote_written; overflow = false }
unfolding sink_add_escaped sink_init escaped_loop flush sink_escape sink_add_bytes is_plain
quote_added = refl

-- Without room for the NUL.
quote_full : (sink_add_escaped (sink_init 5) quote_text).overflow ≡ true
unfolding sink_add_escaped sink_init escaped_loop flush sink_escape sink_add_bytes is_plain
quote_full = refl

quote_Utf8 : Utf8 quote_text
quote_Utf8 =
    one (omega arith)
      (one (omega arith) (two (omega arith, omega arith) (omega arith, omega arith) nil))

token_string-sink_add_escaped_example :
    (token_string
        (quoted (b'[' ∷ []) quote_written (b']' ∷ []))
        3
        none
        (in_front (b'[' ∷ []) [] [] false)
      ≡ some (behind (b'[' ∷ []) quote_written none [] [] false))
    × (json_copy_str
          (quoted (b'[' ∷ []) quote_written (b']' ∷ []))
          (string_token (b'[' ∷ []) quote_written none)
          10
        ≡ quote_text)
token_string-sink_add_escaped_example =
    token_string-sink_add_escaped 20 quote_text quote_written (b'[' ∷ []) (b']' ∷ []) none 3 9 [] []
      false (omega arith) quote_Utf8 (omega arith) quote_added (omega arith) (omega arith)
