-- ===== src/Sink/Read.antt =====
-- A string that `sink_add_escaped` of src/runtime/runtime.c wrote, read by src/http/json.c.
use gargantua.Common.{
  ℕ, zero, suc, ◌-◌, ◌/◌, ◌≤◌, ◌<◌, Bool, true, false, Option, none, some, [], ◌∷◌, ◌++◌, Bytes,
  codes, contains, length, length-append, leb, ◌==◌, Bool-cases, ==_iff, all_below, all_below-true,
  le→leb, ◌≡◌, inl, inr, refl, sym, ap, ◌∙◌, arith,
}
use gargantua.Json.{hex_digit, read_hex4, is_high_surrogate}
use gargantua.Json.Copy.{utf8_encode, escaped_point, short_escape, escaped_bytes, copy_loop}
use gargantua.Sink.{hex_char, is_plain}
use gargantua.Sink.Escape.{escape_byte, escape}

-- The two digits of an escaped byte.
hex_fits : Option ℕ → ℕ → Bool
hex_fits none c = false
hex_fits (some v) c = v == c

hex_fits-eq : (o : Option ℕ) (c : ℕ) → hex_fits o c ≡ true → o ≡ some c
unfolding hex_fits
hex_fits-eq none c e = absurd (ground (arith, e))
hex_fits-eq (some v) c e = ap some ((==_iff v c).0 e)

all_pairs :
    all_below 32 (λ c. hex_fits (read_hex4 (b'0' ∷ b'0' ∷ hex_char (c / 16) ∷ hex_char c ∷ [])) c)
    ≡ true
unfolding hex_fits read_hex4 hex_digit hex_char
all_pairs = refl

pub read_hex4-escape :
    (c : ℕ) (s : Bytes)
    → c < 32
    → read_hex4 (b'0' ∷ b'0' ∷ hex_char (c / 16) ∷ hex_char c ∷ s) ≡ some c
unfolding read_hex4
read_hex4-escape c s lt =
    hex_fits-eq (read_hex4 (b'0' ∷ b'0' ∷ hex_char (c / 16) ∷ hex_char c ∷ [])) c (
      all_below-true 32
        (λ c. hex_fits (read_hex4 (b'0' ∷ b'0' ∷ hex_char (c / 16) ∷ hex_char c ∷ [])) c) c
        all_pairs lt)

-- What is escaped is below 0x20, but for the quote and the backslash.
escaped-lt : (c : ℕ) → is_plain c ≡ false → (c == b'"') ≡ false → (c == b'\\') ≡ false → c < 32
unfolding is_plain
escaped-lt c e q b = ground (arith, e, q, b)

copy_loop-plain :
    (rounds room c : ℕ) (s : Bytes)
    → (c == b'\\') ≡ false
    → 0 < room
    → copy_loop (suc rounds) true room (c ∷ s) ≡ c ∷ copy_loop rounds true (room - 1) s
unfolding copy_loop
copy_loop-plain rounds room c s ordinary free =
    let free' : (room == 0) ≡ false = ground (arith, free) in rw (free', ordinary) refl

copy_loop-escape :
    (rounds room c x : ℕ) (t s : Bytes)
    → escaped_bytes room (x ∷ t) ≡ some (c ∷ [], s)
    → 0 < room
    → copy_loop (suc rounds) true room (b'\\' ∷ x ∷ t) ≡ c ∷ copy_loop rounds true (room - 1) s
unfolding copy_loop
copy_loop-escape rounds room c x t s read free =
    let free' : (room == 0) ≡ false = ground (arith, free) in rw (free', read) refl

escaped_bytes-hex :
    (room c : ℕ) (s : Bytes)
    → c < 32
    → 0 < room
    → escaped_bytes room (b'u' ∷ b'0' ∷ b'0' ∷ hex_char (c / 16) ∷ hex_char c ∷ s)
      ≡ some (c ∷ [], s)
unfolding escaped_bytes short_escape escaped_point utf8_encode
escaped_bytes-hex room c s lt free =
    let digits = read_hex4-escape c s lt in
    let low : is_high_surrogate c ≡ false = ground (arith, lt) in
    let one : leb c 0x7F ≡ true = le→leb _ _ (omega (arith, lt)) in
    let cap : leb 1 room ≡ true = le→leb _ _ (omega (arith, free)) in
    rw (digits, low, one, cap) refl

escape_byte-hex :
    (c : ℕ)
    → is_plain c ≡ false
    → (c == b'"') ≡ false
    → (c == b'\\') ≡ false
    → (c == b'\n') ≡ false
    → (c == b'\r') ≡ false
    → (c == b'\t') ≡ false
    → escape_byte c ≡ b'\\' ∷ b'u' ∷ b'0' ∷ b'0' ∷ hex_char (c / 16) ∷ hex_char c ∷ []
unfolding escape_byte
escape_byte-hex c special q b n r t = rw (special, q, b, n, r, t) refl

-- How a byte is written: as it is, behind a backslash, or with its digits.
pub data Written (c : ℕ) : Type 0 where
  plain : is_plain c ≡ true → escape_byte c ≡ c ∷ [] → Written c
  short :
      (x : ℕ)
      → short_escape x ≡ some c
      → contains (codes "\"\\/bfnrt") x ≡ true
      → escape_byte c ≡ b'\\' ∷ x ∷ []
      → Written c
  digits :
      c < 32
      → escape_byte c ≡ b'\\' ∷ b'u' ∷ b'0' ∷ b'0' ∷ hex_char (c / 16) ∷ hex_char c ∷ []
      → Written c

pub all_Written : (c : ℕ) → Written c
unfolding escape_byte short_escape contains
all_Written c = elim (Bool-cases (is_plain c)) [
  | inl fine ↦ plain fine (rw fine refl)
  | inr special ↦ elim (Bool-cases (c == b'"')) [
    | inl q ↦ short b'"' (ap some (sym ((==_iff c b'"').0 q))) refl (rw (special, q) refl)
    | inr q ↦ elim (Bool-cases (c == b'\\')) [
      | inl b ↦ short b'\\' (ap some (sym ((==_iff c b'\\').0 b))) refl (rw (special, q, b) refl)
      | inr b ↦ elim (Bool-cases (c == b'\n')) [
        | inl n ↦
            short b'n' (ap some (sym ((==_iff c b'\n').0 n))) refl (rw (special, q, b, n) refl)
        | inr n ↦ elim (Bool-cases (c == b'\r')) [
          | inl r ↦
              short b'r' (ap some (sym ((==_iff c b'\r').0 r))) refl (rw (special, q, b, n, r) refl)
          | inr r ↦ elim (Bool-cases (c == b'\t')) [
            | inl t ↦
                short b't' (ap some (sym ((==_iff c b'\t').0 t))) refl
                  (rw (special, q, b, n, r, t) refl)
            | inr t ↦ digits (escaped-lt c special q b) (escape_byte-hex c special q b n r t)
          ]
        ]
      ]
    ]
  ]
]

copy_loop-Written :
    (rounds room c : ℕ) (s : Bytes)
    → Written c
    → 0 < room
    → copy_loop (suc rounds) true room (escape_byte c ++ s) ≡ c ∷ copy_loop rounds true (room - 1) s
unfolding is_plain escaped_bytes
copy_loop-Written rounds room c s (plain fine e) free =
    rw e (copy_loop-plain rounds room c s (ground (arith, fine)) free)
copy_loop-Written rounds room c s (short x read known e) free =
    let one : escaped_bytes room (x ∷ s) ≡ some (c ∷ [], s) = rw (escaped_bytes, read) refl in
    rw e (copy_loop-escape rounds room c x s s one free)
copy_loop-Written rounds room c s (digits low e) free =
    rw e (copy_loop-escape rounds room c b'u' _ s (escaped_bytes-hex room c s low free) free)

pub length-escape_byte : (c : ℕ) → Written c → 0 < length (escape_byte c)
length-escape_byte c (plain fine e) = omega (arith, ap length e)
length-escape_byte c (short x read known e) = omega (arith, ap length e)
length-escape_byte c (digits low e) = omega (arith, ap length e)

pub copy_loop-escape_text :
    (text : Bytes) (rounds room : ℕ)
    → length (escape text) ≤ rounds
    → length text ≤ room
    → copy_loop rounds true room (escape text) ≡ text
unfolding escape copy_loop
copy_loop-escape_text [] zero room enough fits = refl
copy_loop-escape_text [] (suc rounds) room enough fits = refl
copy_loop-escape_text (c ∷ text) zero room enough fits = absurd (
    omega (
      arith,
      enough,
      length-append (escape_byte c) (escape text),
      length-escape_byte c (all_Written c),
    ))
copy_loop-escape_text (c ∷ text) (suc rounds) room enough fits =
    copy_loop-Written rounds room c (escape text) (all_Written c) (omega (arith, fits))
    ∙ ap (◌∷◌ c) (
        copy_loop-escape_text text rounds (room - 1)
          (omega (
            arith,
            enough,
            length-append (escape_byte c) (escape text),
            length-escape_byte c (all_Written c),
          ))
          (omega (arith, fits)))
