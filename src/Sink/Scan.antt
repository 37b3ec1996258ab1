-- ===== src/Sink/Scan.antt =====
-- The string that `sink_add_escaped` of src/runtime/runtime.c wrote, in front of the scanner of src/http/json.c.
use gargantua.Common.{
  ℕ, zero, suc, ◌+◌, ◌/◌, ◌≤◌, ◌<◌, true, false, some, [], ◌∷◌, ◌++◌, append_assoc, Bytes, codes,
  contains, length, length-append, drop, ltb, leb, ◌==◌, ◌≡◌, refl, arith,
}
use gargantua.Json.{
  is_high_surrogate, is_low_surrogate, escape_length, char_length, string_length, utf8_advance,
}
use gargantua.Sink.{hex_char, is_plain}
use gargantua.Sink.Escape.{escape_byte, escape}
use gargantua.Sink.Read.{
  Written, plain, short, digits, all_Written, length-escape_byte, read_hex4-escape,
}
use gargantua.Sink.Utf8.{
  Utf8, nil, one, two, three, four, utf8_advance-two, utf8_advance-three, utf8_advance-four,
}

string_length-step :
    (rounds c n m : ℕ) (s : Bytes)
    → (c == b'"') ≡ false
    → char_length c s ≡ some n
    → string_length rounds (drop n s) ≡ some m
    → string_length (suc rounds) (c ∷ s) ≡ some (1 + n + m)
unfolding string_length
string_length-step rounds c n m s ordinary here more = rw (ordinary, here, more) refl

char_length-high :
    (c n : ℕ) (s : Bytes) → 0x80 ≤ c → utf8_advance c s ≡ some n → char_length c s ≡ some n
unfolding char_length
char_length-high c n s high e =
    let a : (c == b'\\') ≡ false = ground (arith, high) in
    let b : ltb c 0x20 ≡ false = ground (arith, high) in
    let d : leb 0x80 c ≡ true = ground (arith, high) in rw (a, b, d) e

char_length-plain : (c : ℕ) (s : Bytes) → is_plain c ≡ true → c ≤ 0x7F → char_length c s ≡ some 0
unfolding char_length is_plain
char_length-plain c s fine low =
    let a : (c == b'\\') ≡ false = ground (arith, fine) in
    let b : ltb c 0x20 ≡ false = ground (arith, fine) in
    let d : leb 0x80 c ≡ false = ground (arith, low) in rw (a, b, d) refl

escape_length-short :
    (x : ℕ) (s : Bytes) → contains (codes "\"\\/bfnrt") x ≡ true → escape_length (x ∷ s) ≡ some 1
unfolding escape_length
escape_length-short x s known = rw known refl

escape_length-hex :
    (c : ℕ) (s : Bytes)
    → c < 32
    → escape_length (b'u' ∷ b'0' ∷ b'0' ∷ hex_char (c / 16) ∷ hex_char c ∷ s) ≡ some 5
unfolding escape_length contains
escape_length-hex c s low =
    let value = read_hex4-escape c s low in
    let a : is_high_surrogate c ≡ false = ground (arith, low) in
    let b : is_low_surrogate c ≡ false = ground (arith, low) in rw (value, a, b) refl

-- One byte as it was written.
string_length-Written :
    (rounds c m : ℕ) (s : Bytes)
    → Written c
    → c ≤ 0x7F
    → string_length rounds s ≡ some m
    → string_length (suc rounds) (escape_byte c ++ s) ≡ some (length (escape_byte c) + m)
unfolding char_length is_plain
string_length-Written rounds c m s (plain fine e) low more =
    rw e (
      string_length-step rounds c 0 m s (ground (arith, fine)) (char_length-plain c s fine low)
        more)
string_length-Written rounds c m s (short x read known e) low more =
    rw e (string_length-step rounds b'\\' 1 m (x ∷ s) refl (escape_length-short x s known) more)
string_length-Written rounds c m s (digits small e) low more =
    rw e (string_length-step rounds b'\\' 5 m _ refl (escape_length-hex c s small) more)

-- A byte of a longer character.
escape_byte-high : (c : ℕ) → 0x80 ≤ c → escape_byte c ≡ c ∷ []
unfolding escape_byte is_plain
escape_byte-high c high = let fine : is_plain c ≡ true = ground (arith, high) in rw fine refl

string_length-high :
    (rounds c n m k : ℕ) (s : Bytes)
    → 0x80 ≤ c
    → utf8_advance c s ≡ some n
    → string_length rounds (drop n s) ≡ some m
    → k ≡ 1 + n + m
    → string_length (suc rounds) (c ∷ s) ≡ some k
string_length-high rounds c n m k s high e more size =
    rw size (
      string_length-step rounds c n m s (ground (arith, high)) (char_length-high c n s high e) more)

pub string_length-escape :
    (text rest : Bytes) (rounds : ℕ)
    → Utf8 text
    → length (escape text) < rounds
    → string_length rounds (escape text ++ (b'"' ∷ rest)) ≡ some (length (escape text))
unfolding escape string_length
string_length-escape text rest zero u enough = absurd (omega (arith, enough))
string_length-escape [] rest (suc rounds) nil enough = refl
string_length-escape (a ∷ s) rest (suc rounds) (one low u) enough =
    let size = length-append (escape_byte a) (escape s) in
    let more =
      string_length-escape s rest rounds u
        (omega (arith, enough, size, length-escape_byte a (all_Written a))) in
    rw (append_assoc (escape_byte a) (escape s) (b'"' ∷ rest), size)
      (string_length-Written rounds a _ _ (all_Written a) low more)
string_length-escape (a ∷ b ∷ s) rest (suc rounds) (two fa fb u) enough =
    let ea = escape_byte-high a (omega (arith, fa)) in
    let eb = escape_byte-high b (omega (arith, fb)) in
    let enough' : suc (suc (length (escape s))) < suc rounds = rw (ea, eb) at enough in
    rw (ea, eb)
      (string_length-high rounds a 1 _ _ _ (omega (arith, fa)) (utf8_advance-two a b _ fa fb)
        (string_length-escape s rest rounds u (omega (arith, enough'))) (omega arith))
string_length-escape (a ∷ b ∷ c ∷ s) rest (suc rounds) (three fa fc u) enough =
    let ea = escape_byte-high a (ground (arith, fa)) in
    let eb = escape_byte-high b (ground (arith, fa)) in
    let ec = escape_byte-high c (omega (arith, fc)) in
    let enough' : suc (suc (suc (length (escape s)))) < suc rounds = rw (ea, eb, ec) at enough in
    rw (ea, eb, ec)
      (string_length-high rounds a 2 _ _ _ (ground (arith, fa)) (utf8_advance-three a b c _ fa fc)
        (string_length-escape s rest rounds u (omega (arith, enough'))) (omega arith))
string_length-escape (a ∷ b ∷ c ∷ d ∷ s) rest (suc rounds) (four fa fc fd u) enough =
    let ea = escape_byte-high a (ground (arith, fa)) in
    let eb = escape_byte-high b (ground (arith, fa)) in
    let ec = escape_byte-high c (omega (arith, fc)) in
    let ed = escape_byte-high d (omega (arith, fd)) in
    let enough' : suc (suc (suc (suc (length (escape s))))) < suc rounds =
      rw (ea, eb, ec, ed) at enough in
    rw (ea, eb, ec, ed)
      (string_length-high rounds a 3 _ _ _ (ground (arith, fa))
        (utf8_advance-four a b c d _ fa fc fd)
        (string_length-escape s rest rounds u (omega (arith, enough'))) (omega arith))
