-- ===== src/Sink.antt =====
-- The bounded text that JSON is written into: the `Sink` of src/runtime/runtime.c with
-- include/framework_internal.h. `text` are the bytes of `buf` up to `len`; the NUL behind them is left out.
pub mod Escape
pub mod Read
pub mod Utf8
pub mod Scan
pub mod RoundTrip
mod Tests
use gargantua.Common.{
  ℕ, zero, suc, ◌+◌, ◌-◌, ◌*◌, ◌/◌, ◌%◌, Bool, true, false, not, ◌&&◌, Option, none, some, List, [],
  ◌∷◌, ◌++◌, Bytes, codes, length, get_elem?, take, ltb, leb, ◌==◌, if◌then◌else◌,
}
use gargantua.Paths.{max_text}

pub record Sink : Type 0 where
  pub cap : ℕ
  pub text : Bytes
  pub overflow : Bool

unfoldable pub sink_init : ℕ → Sink
sink_init cap = record { cap = cap; text = []; overflow = false }

unfoldable pub sink_add_bytes : Sink → Bytes → Sink
sink_add_bytes s text =
    if s.overflow
    then s
    else if leb (s.cap - length s.text) (length text)
    then record s { overflow = true }
    else record s { text = s.text ++ text }

unfoldable pub sink_put : Sink → ℕ → Sink
sink_put s c =
    if s.overflow
    then s
    else if leb s.cap (length s.text + 1)
    then record s { overflow = true }
    else record s { text = s.text ++ (c ∷ []) }

-- A digit of `HEX_DIGIT`.
pub hex_char : ℕ → ℕ
hex_char n = elim (get_elem? (codes "0123456789abcdef") (n % 16)) [ none ↦ 0 | some c ↦ c ]

-- A byte that needs no escape.
unfoldable pub is_plain : ℕ → Bool
is_plain c = leb 0x20 c && not (c == b'"') && not (c == b'\\')

-- The `switch` on an escaped byte.
unfoldable pub sink_escape : Sink → ℕ → Sink
sink_escape s c =
    if c == b'"'
    then sink_add_bytes s (codes "\\\"")
    else if c == b'\\'
    then sink_add_bytes s (codes "\\\\")
    else if c == b'\n'
    then sink_add_bytes s (codes "\\n")
    else if c == b'\r'
    then sink_add_bytes s (codes "\\r")
    else if c == b'\t'
    then sink_add_bytes s (codes "\\t")
    else sink_put (sink_put (sink_add_bytes s (codes "\\u00")) (hex_char (c / 16))) (hex_char c)

-- The bytes since the last escape are added at once.
unfoldable pub flush : Sink → Bytes → Sink
flush s plain = if ltb 0 (length plain) then sink_add_bytes s plain else s

-- `plain` are the bytes since the last escape.
unfoldable pub escaped_loop : Sink → Bytes → Bytes → Sink
escaped_loop s plain [] = flush s plain
escaped_loop s plain (c ∷ text) =
    let longer = escaped_loop s (plain ++ (c ∷ [])) text in
    let escaped = escaped_loop (sink_escape (flush s plain) c) [] text in
    if is_plain c then longer else escaped

unfoldable pub sink_add_escaped : Sink → Bytes → Sink
sink_add_escaped s text = escaped_loop s [] (take max_text text)
