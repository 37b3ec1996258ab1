-- ===== src/Json/Grammar.antt =====
-- The grammar of JSON texts (RFC 8259), against which src/http/json.c is read. In `Value s r`, `s` begins with a
-- value and `r` stands behind it, and so for the others.
use gargantua.Common.{
  ℕ, ◌≤◌, ◌<◌, true, false, some, ◌∷◌, ◌++◌, Bytes, codes, contains, within, drop, ◌≡◌, ◌≢◌, ◌⊎◌,
}
use gargantua.Json.{
  is_space, utf8_advance, read_hex4, is_high_surrogate, is_low_surrogate, surrogate_follows,
}

pub data Blanks : Bytes → Bytes → Type 0 where
  none_left : (s : Bytes) → Blanks s s
  blank : (c : ℕ) (s r : Bytes) → is_space c ≡ true → Blanks s r → Blanks (c ∷ s) r

-- A character of a string, or its escape. A character above 0x7F is well-formed UTF-8, as `utf8_advance` has it.
pub data Character : Bytes → Bytes → Type 0 where
  plain : (c : ℕ) (s : Bytes) → 0x20 ≤ c → c < 0x80 → c ≢ b'"' → c ≢ b'\\' → Character (c ∷ s) s
  wide : (c n : ℕ) (s : Bytes) → 0x80 ≤ c → utf8_advance c s ≡ some n → Character (c ∷ s) (drop n s)
  escape :
      (c : ℕ) (s : Bytes) → contains (codes "\"\\/bfnrt") c ≡ true → Character (b'\\' ∷ c ∷ s) s
  unicode :
      (s : Bytes) (v : ℕ)
      → read_hex4 s ≡ some v
      → is_high_surrogate v ≡ false
      → is_low_surrogate v ≡ false
      → Character (b'\\' ∷ b'u' ∷ s) (drop 4 s)
  surrogates :
      (s : Bytes) (v : ℕ)
      → read_hex4 s ≡ some v
      → is_high_surrogate v ≡ true
      → surrogate_follows (drop 4 s) ≡ true
      → Character (b'\\' ∷ b'u' ∷ s) (drop 10 s)

-- The rest of a string, behind its opening quote, and what is behind its closing quote.
pub data Text : Bytes → Bytes → Type 0 where
  closed : (r : Bytes) → Text (b'"' ∷ r) r
  character : (s t r : Bytes) → Character s t → Text t r → Text s r

-- A digit at least.
pub data Digits : Bytes → Bytes → Type 0 where
  last_digit : (c : ℕ) (r : Bytes) → within b'0' b'9' c ≡ true → Digits (c ∷ r) r
  more_digits : (c : ℕ) (s r : Bytes) → within b'0' b'9' c ≡ true → Digits s r → Digits (c ∷ s) r

pub data Sign : Bytes → Bytes → Type 0 where
  no_sign : (r : Bytes) → Sign r r
  minus : (r : Bytes) → Sign (b'-' ∷ r) r

-- Without leading zeros.
pub data Integer : Bytes → Bytes → Type 0 where
  zero_digit : (r : Bytes) → Integer (b'0' ∷ r) r
  one_digit : (c : ℕ) (r : Bytes) → within b'1' b'9' c ≡ true → Integer (c ∷ r) r
  many_digits : (c : ℕ) (s r : Bytes) → within b'1' b'9' c ≡ true → Digits s r → Integer (c ∷ s) r

pub data Fraction : Bytes → Bytes → Type 0 where
  no_fraction : (r : Bytes) → Fraction r r
  fraction : (s r : Bytes) → Digits s r → Fraction (b'.' ∷ s) r

pub data ExponentSign : Bytes → Bytes → Type 0 where
  no_exponent_sign : (r : Bytes) → ExponentSign r r
  signed_exponent : (c : ℕ) (r : Bytes) → (c ≡ b'+') ⊎ (c ≡ b'-') → ExponentSign (c ∷ r) r

pub data Exponent : Bytes → Bytes → Type 0 where
  no_exponent : (r : Bytes) → Exponent r r
  exponent :
      (c : ℕ) (s t r : Bytes)
      → (c ≡ b'e') ⊎ (c ≡ b'E')
      → ExponentSign s t
      → Digits t r
      → Exponent (c ∷ s) r

pub data Primitive : Bytes → Bytes → Type 0 where
  true_literal : (r : Bytes) → Primitive (codes "true" ++ r) r
  false_literal : (r : Bytes) → Primitive (codes "false" ++ r) r
  null_literal : (r : Bytes) → Primitive (codes "null" ++ r) r
  number :
      (s t u v r : Bytes) → Sign s t → Integer t u → Fraction u v → Exponent v r → Primitive s r

mutual
  pub data Value : Bytes → Bytes → Type 0 where
    primitive : (s r : Bytes) → Primitive s r → Value s r
    string : (s r : Bytes) → Text s r → Value (b'"' ∷ s) r
    empty_object : (s r : Bytes) → Blanks s (b'}' ∷ r) → Value (b'{' ∷ s) r
    object : (s r : Bytes) → Members s (b'}' ∷ r) → Value (b'{' ∷ s) r
    empty_array : (s r : Bytes) → Blanks s (b']' ∷ r) → Value (b'[' ∷ s) r
    array : (s r : Bytes) → Elements s (b']' ∷ r) → Value (b'[' ∷ s) r

  pub data Element : Bytes → Bytes → Type 0 where
    element : (s t u r : Bytes) → Blanks s t → Value t u → Blanks u r → Element s r

  pub data Elements : Bytes → Bytes → Type 0 where
    last_element : (s r : Bytes) → Element s r → Elements s r
    more_elements : (s t r : Bytes) → Element s (b',' ∷ t) → Elements t r → Elements s r

  pub data Member : Bytes → Bytes → Type 0 where
    member :
        (s t u v r : Bytes)
        → Blanks s (b'"' ∷ t)
        → Text t u
        → Blanks u (b':' ∷ v)
        → Element v r
        → Member s r

  pub data Members : Bytes → Bytes → Type 0 where
    last_member : (s r : Bytes) → Member s r → Members s r
    more_members : (s t r : Bytes) → Member s (b',' ∷ t) → Members t r → Members s r
