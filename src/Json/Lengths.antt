-- ===== src/Json/Lengths.antt =====
-- The scanners of src/http/json.c stay inside the text.
use gargantua.Common.{
  ℕ, zero, suc, ◌+◌, ◌-◌, ◌≤◌, ◌<◌, true, false, ◌&&◌, ◌||◌, Option, none, some, [], ◌∷◌, Bytes,
  codes, within, contains, str_eq, str_eq_iff, length, take, drop, all, length-drop, length-take,
  ltb, leb, ◌==◌, if◌then◌else◌, ◌>>=◌, ◌>>◌, guard, >>=-eq-some, guard-eq-some, some_inj,
  some-ne-none, Bool-cases, Option-cases, ◌≡◌, inl, inr, refl, sym, ap, ◌∙◌, arith, leb→le,
}
use gargantua.Json.{
  read_hex4, utf8_tail, utf8_advance, is_high_surrogate, is_low_surrogate, is_continuation,
  surrogate_follows, escape_length, char_length, string_length, is_delimiter, digits_length,
  sign_length, integer_length, some_digits, fraction_length, exponent_sign, exponent_length,
  scan_number, literal_length, primitive_length,
}

-- The result, if there is one, is at most `n`.
abbrev AtMost : ℕ → Option ℕ → Type 0
AtMost n none = Unit
AtMost n (some m) = m ≤ n

utf8_tail-AtMost : (n min max : ℕ) (s : Bytes) → AtMost (length s) (utf8_tail n min max s)
unfolding utf8_tail
utf8_tail-AtMost n min max [] = tt
utf8_tail-AtMost n min max (b ∷ s) = elim (Bool-cases (leb n (length (b ∷ s)))) [
  | inr short ↦ rw short tt
  | inl long ↦ elim (Bool-cases (within min max b && all is_continuation (take (n - 1) s))) [
    | inr bad ↦ rw (long, bad) tt
    | inl good ↦ rw (long, good) (leb→le _ _ long)
  ]
]

utf8_advance-AtMost : (a : ℕ) (s : Bytes) → AtMost (length s) (utf8_advance a s)
unfolding utf8_advance
utf8_advance-AtMost a s = elim (Bool-cases (within 0xC2 0xDF a)) [
  | inl two ↦ rw two (utf8_tail-AtMost _ _ _ s)
  | inr more ↦ elim (Bool-cases (within 0xE0 0xEF a)) [
    | inl three ↦
        rw (more, three)
          (utf8_tail-AtMost 2 (if a == 0xE0 then 0xA0 else 0x80) (if a == 0xED then 0x9F else 0xBF)
            s)
    | inr yet ↦ elim (Bool-cases (within 0xF0 0xF4 a)) [
      | inl four ↦
          rw (more, yet, four)
            (utf8_tail-AtMost 3 (if a == 0xF0 then 0x90 else 0x80)
              (if a == 0xF4 then 0x8F else 0xBF) s)
      | inr bad ↦ rw (more, yet, bad) tt
    ]
  ]
]

read_hex4_long : (s : Bytes) (n : ℕ) → read_hex4 s ≡ some n → 4 ≤ length s
unfolding read_hex4
read_hex4_long [] n e = absurd (some-ne-none (sym e))
read_hex4_long (a ∷ []) n e = absurd (some-ne-none (sym e))
read_hex4_long (a ∷ b ∷ []) n e = absurd (some-ne-none (sym e))
read_hex4_long (a ∷ b ∷ c ∷ []) n e = absurd (some-ne-none (sym e))
read_hex4_long (a ∷ b ∷ c ∷ d ∷ s) n e = omega arith

surrogate_follows_long : (s : Bytes) → surrogate_follows s ≡ true → 6 ≤ length s
unfolding surrogate_follows
surrogate_follows_long [] e = cc
surrogate_follows_long (a ∷ []) e = cc
surrogate_follows_long (a ∷ b ∷ s) e = elim (Option-cases (read_hex4 s)) [
  | inr (n, h) ↦ omega (arith, read_hex4_long s n h)
  | inl h ↦ let no : surrogate_follows (a ∷ b ∷ s) ≡ false = rw h (ground arith) in cc
]

escape_length-AtMost : (s : Bytes) → AtMost (length s) (escape_length s)
unfolding escape_length
escape_length-AtMost [] = tt
escape_length-AtMost (c ∷ s) = elim (Bool-cases (contains (codes "\"\\/bfnrt") c)) [
  | inl short ↦ rw short (omega arith)
  | inr other ↦ elim (Bool-cases (c == b'u')) [
    | inr bad ↦ rw (other, bad) tt
    | inl u ↦ elim (Option-cases (read_hex4 s)) [
      | inl bad ↦ rw (other, u, bad) tt
      | inr (n, e) ↦
          let long = read_hex4_long s n e in
          elim (Bool-cases (is_high_surrogate n)) [
            | inl high ↦ elim (Bool-cases (surrogate_follows (drop 4 s))) [
              | inr bad ↦ rw (other, u, e, high, bad) tt
              | inl pair ↦
                  rw (other, u, e, high, pair)
                    (omega (arith, surrogate_follows_long (drop 4 s) pair, length-drop 4 s))
            ]
            | inr plain ↦ elim (Bool-cases (is_low_surrogate n)) [
              | inl bad ↦ rw (other, u, e, plain, bad) tt
              | inr fine ↦ rw (other, u, e, plain, fine) (omega (arith, long))
            ]
          ]
    ]
  ]
]

pub char_length-AtMost : (c : ℕ) (s : Bytes) → AtMost (length s) (char_length c s)
unfolding char_length
char_length-AtMost c s = elim (Bool-cases (c == b'\\')) [
  | inl escape ↦ rw escape (escape_length-AtMost s)
  | inr other ↦ elim (Bool-cases (ltb c 0x20)) [
    | inl control ↦ rw (other, control) tt
    | inr fine ↦ elim (Bool-cases (leb 0x80 c)) [
      | inl high ↦ rw (other, fine, high) (utf8_advance-AtMost c s)
      | inr ascii ↦ rw (other, fine, ascii) (omega arith)
    ]
  ]
]

-- The closing quote is inside.
pub string_length-lt :
    (rounds : ℕ) (s : Bytes) (n : ℕ) → string_length rounds s ≡ some n → n < length s
unfolding string_length
string_length-lt zero s n e = absurd (some-ne-none (sym e))
string_length-lt (suc rounds) [] n e = absurd (some-ne-none (sym e))
string_length-lt (suc rounds) (c ∷ s) n e = elim (Bool-cases (c == b'"')) [
  | inl quote ↦
      let made : string_length (suc rounds) (c ∷ s) ≡ some 0 = rw quote refl in
      omega (arith, some_inj (sym made ∙ e))
  | inr other ↦ elim (Option-cases (char_length c s)) [
    | inl bad ↦
        let gone : string_length (suc rounds) (c ∷ s) ≡ none = rw (other, bad) refl in
        absurd (some-ne-none (sym e ∙ gone))
    | inr (k, ek) ↦ elim (Option-cases (string_length rounds (drop k s))) [
      | inl bad ↦
          let gone : string_length (suc rounds) (c ∷ s) ≡ none = rw (other, ek, bad) refl in
          absurd (some-ne-none (sym e ∙ gone))
      | inr (m, em) ↦
          let made : string_length (suc rounds) (c ∷ s) ≡ some (1 + k + m) =
            rw (other, ek, em) refl in
          let below : AtMost (length s) (some k) = rw ek at (char_length-AtMost c s) in
          omega (
            arith,
            some_inj (sym made ∙ e),
            string_length-lt rounds (drop k s) m em,
            length-drop k s,
            below,
          )
    ]
  ]
]

digits_length-le : (s : Bytes) → digits_length s ≤ length s
unfolding digits_length
digits_length-le [] = omega arith
digits_length-le (c ∷ s) = ground (arith, digits_length-le s)

sign_length-le : (s : Bytes) → sign_length s ≤ length s
unfolding sign_length
sign_length-le [] = omega arith
sign_length-le (c ∷ s) = ground arith

-- The result, if there is one, lies between 1 and `n`.
abbrev Between : ℕ → Option ℕ → Type 0
Between n none = Unit
Between n (some m) = (1 ≤ m) × (m ≤ n)

integer_length-Between : (s : Bytes) → Between (length s) (integer_length s)
unfolding integer_length
integer_length-Between [] = tt
integer_length-Between (c ∷ s) = elim (Bool-cases (c == b'0')) [
  | inl nought ↦ elim (Bool-cases (digits_length s == 0)) [
    | inl alone ↦ rw (nought, alone) (omega arith, omega arith)
    | inr more ↦ rw (nought, more) tt
  ]
  | inr other ↦ elim (Bool-cases (within b'1' b'9' c)) [
    | inl digit ↦ rw (other, digit) (omega arith, omega (arith, digits_length-le s))
    | inr bad ↦ rw (other, bad) tt
  ]
]

some_digits-AtMost : (n : ℕ) (s : Bytes) → AtMost (n + length s) (some_digits n s)
unfolding some_digits
some_digits-AtMost n s = elim (Bool-cases (digits_length s == 0)) [
  | inl empty ↦ rw empty tt
  | inr more ↦ rw more (omega (arith, digits_length-le s))
]

AtMost-weaken : (n k : ℕ) (o : Option ℕ) → n ≤ k → AtMost n o → AtMost k o
AtMost-weaken n k none h a = tt
AtMost-weaken n k (some m) h a = omega (arith, a, h)

fraction_length-AtMost : (s : Bytes) → AtMost (length s) (fraction_length s)
unfolding fraction_length
fraction_length-AtMost [] = omega arith
fraction_length-AtMost (c ∷ s) = elim (Bool-cases (c == b'.')) [
  | inl point ↦
      rw point
        (AtMost-weaken (1 + length s) _ (some_digits 1 s) (omega arith) (some_digits-AtMost 1 s))
  | inr other ↦ rw other (omega arith)
]

exponent_sign-le : (s : Bytes) → exponent_sign s ≤ length s
unfolding exponent_sign
exponent_sign-le [] = omega arith
exponent_sign-le (c ∷ s) = ground arith

exponent_length-AtMost : (s : Bytes) → AtMost (length s) (exponent_length s)
unfolding exponent_length
exponent_length-AtMost [] = omega arith
exponent_length-AtMost (c ∷ s) = elim (Bool-cases (c == b'e' || c == b'E')) [
  | inl e ↦
      let k = exponent_sign s in
      rw e (
        AtMost-weaken (1 + k + length (drop k s)) _ (some_digits (1 + k) (drop k s))
          (omega (arith, length-drop k s, exponent_sign-le s))
          (some_digits-AtMost (1 + k) (drop k s)))
  | inr other ↦ rw other (omega arith)
]

AtMost-some : (n m : ℕ) (o : Option ℕ) → AtMost n o → o ≡ some m → m ≤ n
AtMost-some n m none a e = absurd (some-ne-none (sym e))
AtMost-some n m (some k) a e = omega (arith, a, some_inj e)

Between-some : (n m : ℕ) (o : Option ℕ) → Between n o → o ≡ some m → (1 ≤ m) × (m ≤ n)
Between-some n m none a e = absurd (some-ne-none (sym e))
Between-some n m (some k) (a, b) e = (omega (arith, a, some_inj e), omega (arith, b, some_inj e))

scan_number-bounds : (s : Bytes) (n : ℕ) → scan_number s ≡ some n → (1 ≤ n) × (n ≤ length s)
unfolding scan_number
scan_number-bounds s n e =
    let a = sign_length s in
    let (b, eb, e1) =
      >>=-eq-some (integer_length (drop a s))
        (λ b. do
          c ← fraction_length (drop (a + b) s)
          d ← exponent_length (drop (a + b + c) s)
          guard (is_delimiter (drop (a + b + c + d) s))
          some (a + b + c + d))
        e in
    let (c, ec, e2) =
      >>=-eq-some (fraction_length (drop (a + b) s))
        (λ c. do
          d ← exponent_length (drop (a + b + c) s)
          guard (is_delimiter (drop (a + b + c + d) s))
          some (a + b + c + d))
        e1 in
    let (d, ed, e3) =
      >>=-eq-some (exponent_length (drop (a + b + c) s))
        (λ d. guard (is_delimiter (drop (a + b + c + d) s)) >> some (a + b + c + d)) e2 in
    let (_, e4) = guard-eq-some (is_delimiter (drop (a + b + c + d) s)) (some (a + b + c + d)) e3 in
    let sum : a + b + c + d ≡ n = some_inj e4 in
    let whole =
      Between-some (length (drop a s)) b (integer_length (drop a s))
        (integer_length-Between (drop a s)) eb in
    let part =
      AtMost-some (length (drop (a + b) s)) c (fraction_length (drop (a + b) s))
        (fraction_length-AtMost (drop (a + b) s)) ec in
    let power =
      AtMost-some (length (drop (a + b + c) s)) d (exponent_length (drop (a + b + c) s))
        (exponent_length-AtMost (drop (a + b + c) s)) ed in
    (
      omega (arith, sum, whole.0),
      omega (
        arith,
        sum,
        whole.1,
        part,
        power,
        length-drop a s,
        length-drop (a + b) s,
        length-drop (a + b + c) s,
        sign_length-le s,
      ),
    )

str_eq-length : (a b : Bytes) → str_eq a b ≡ true → length a ≡ length b
str_eq-length a b e = ap length ((str_eq_iff a b).0 e)

-- `word` in front of the text.
word_fits : (n : ℕ) (s word : Bytes) → str_eq (take n s) word ≡ true → length word ≤ length s
word_fits n s word e = omega (arith, str_eq-length (take n s) word e, length-take n s)

literal_length-bounds : (s : Bytes) (n : ℕ) → literal_length s ≡ some n → (1 ≤ n) × (n ≤ length s)
unfolding literal_length
literal_length-bounds s n e = elim (Bool-cases (str_eq (take 4 s) (codes "true"))) [
  | inl is_true ↦
      let made : literal_length s ≡ some 4 = rw is_true refl in
      let same = some_inj (sym made ∙ e) in
      (omega (arith, same), omega (arith, same, word_fits 4 s (codes "true") is_true))
  | inr not_true ↦ elim (Bool-cases (str_eq (take 5 s) (codes "false"))) [
    | inl is_false ↦
        let made : literal_length s ≡ some 5 = rw (not_true, is_false) refl in
        let same = some_inj (sym made ∙ e) in
        (omega (arith, same), omega (arith, same, word_fits 5 s (codes "false") is_false))
    | inr not_false ↦ elim (Bool-cases (str_eq (take 4 s) (codes "null"))) [
      | inl is_null ↦
          let made : literal_length s ≡ some 4 = rw (not_true, not_false, is_null) refl in
          let same = some_inj (sym made ∙ e) in
          (omega (arith, same), omega (arith, same, word_fits 4 s (codes "null") is_null))
      | inr not_null ↦
          let made : literal_length s ≡ scan_number s = rw (not_true, not_false, not_null) refl in
          scan_number-bounds s n (sym made ∙ e)
    ]
  ]
]

-- A literal or a number takes a byte at least.
pub primitive_length-bounds :
    (s : Bytes) (n : ℕ) → primitive_length s ≡ some n → (1 ≤ n) × (n ≤ length s)
unfolding primitive_length
primitive_length-bounds s n e =
    let (m, em, e1) =
      >>=-eq-some (literal_length s) (λ n. guard (is_delimiter (drop n s)) >> some n) e in
    let (_, e2) = guard-eq-some (is_delimiter (drop m s)) (some m) e1 in
    let bounds = literal_length-bounds s m em in
    let same = some_inj e2 in (omega (arith, bounds.0, same), omega (arith, bounds.1, same))
