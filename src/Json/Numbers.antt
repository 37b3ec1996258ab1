-- ===== src/Json/Numbers.antt =====
-- The scanners of numbers and literals in src/http/json.c take what the grammar has.
use mathlib.Core.Path.{subst}
use gargantua.Common.{
  ℕ, suc, ◌+◌, true, false, not, ◌||◌, some, [], ◌∷◌, ◌++◌, Bytes, codes, within, str_eq,
  str_eq_iff, take, drop, take-append-drop, ◌==◌, guard, ◌>>=◌, ◌>>◌, >>=-eq-some, guard-eq-some,
  some_inj, some-ne-none, Bool-cases, ==_iff, ◌≡◌, refl, sym, arith, inl, inr,
}
use gargantua.Json.Lexical.{drop_sum}
use gargantua.Json.{
  digits_length, sign_length, integer_length, fraction_length, exponent_length, exponent_sign,
  some_digits, scan_number, literal_length, primitive_length, is_delimiter, is_number_digit,
}
use gargantua.Json.Grammar.{
  Digits, last_digit, more_digits, Sign, no_sign, minus, Integer, zero_digit, one_digit,
  many_digits, Fraction, no_fraction, fraction, ExponentSign, no_exponent_sign, signed_exponent,
  Exponent, no_exponent, exponent, Primitive, true_literal, false_literal, null_literal, number,
}

digits_length-Digits :
    (s : Bytes) → (digits_length s == 0) ≡ false → Digits s (drop (digits_length s) s)
unfolding digits_length
digits_length-Digits [] h = absurd cc
digits_length-Digits (c ∷ s) h = elim (Bool-cases (is_number_digit c)) [
  | inr other ↦
      let nothing : digits_length (c ∷ s) ≡ 0 = rw other refl in absurd (ground (arith, h, nothing))
  | inl digit ↦
      let more_by : digits_length (c ∷ s) ≡ suc (digits_length s) = rw digit (omega arith) in
      elim (Bool-cases (digits_length s == 0)) [
        | inl last ↦
            let one : digits_length (c ∷ s) ≡ 1 =
              omega (arith, more_by, (==_iff (digits_length s) 0).0 last) in
            subst (λ k. Digits (c ∷ s) (drop k (c ∷ s))) (sym one) (last_digit c s digit)
        | inr more ↦
            subst (λ k. Digits (c ∷ s) (drop k (c ∷ s))) (sym more_by)
              (more_digits c s _ digit (digits_length-Digits s more))
      ]
]

sign_length-Sign : (s : Bytes) → Sign s (drop (sign_length s) s)
unfolding sign_length
sign_length-Sign [] = no_sign []
sign_length-Sign (c ∷ s) = elim (Bool-cases (c == b'-')) [
  | inl m ↦
      let one : sign_length (c ∷ s) ≡ 1 = rw m refl in
      subst (λ k. Sign (c ∷ s) (drop k (c ∷ s))) (sym one)
        (subst (λ k. Sign (k ∷ s) s) (sym ((==_iff c b'-').0 m)) (minus s))
  | inr other ↦ rw other (no_sign (c ∷ s))
]

integer_length-Integer : (s : Bytes) (n : ℕ) → integer_length s ≡ some n → Integer s (drop n s)
unfolding integer_length
integer_length-Integer [] n e = absurd cc
integer_length-Integer (c ∷ s) n e = elim (Bool-cases (c == b'0')) [
  | inl z ↦
      let (alone, e1) = guard-eq-some (digits_length s == 0) (some 1) (simp z at e) in
      subst (λ k. Integer (c ∷ s) (drop k (c ∷ s))) (some_inj e1)
        (subst (λ k. Integer (k ∷ s) s) (sym ((==_iff c b'0').0 z)) (zero_digit s))
  | inr nz ↦ elim (Bool-cases (within b'1' b'9' c)) [
    | inr other ↦ absurd (some-ne-none (sym (simp (nz, other) at e)))
    | inl digit ↦
        let n_is : 1 + digits_length s ≡ n = some_inj (simp (nz, digit) at e) in
        elim (Bool-cases (digits_length s == 0)) [
          | inl last ↦
              let one : 1 ≡ n = omega (arith, n_is, (==_iff (digits_length s) 0).0 last) in
              subst (λ k. Integer (c ∷ s) (drop k (c ∷ s))) one (one_digit c s digit)
          | inr more ↦
              let n_suc : suc (digits_length s) ≡ n = omega (arith, n_is) in
              subst (λ k. Integer (c ∷ s) (drop k (c ∷ s))) n_suc
                (many_digits c s _ digit (digits_length-Digits s more))
        ]
  ]
]

some_digits-Digits :
    (before n : ℕ) (s : Bytes)
    → some_digits before s ≡ some n
    → Digits s (drop (digits_length s) s) × (before + digits_length s ≡ n)
unfolding some_digits
some_digits-Digits before n s e =
    let (more, e1) =
      guard-eq-some (not (digits_length s == 0)) (some (before + digits_length s)) e in
    (digits_length-Digits s (ground (arith, more)), some_inj e1)

fraction_length-Fraction : (s : Bytes) (n : ℕ) → fraction_length s ≡ some n → Fraction s (drop n s)
unfolding fraction_length
fraction_length-Fraction [] n e = subst (λ k. Fraction [] (drop k [])) (some_inj e) (no_fraction [])
fraction_length-Fraction (c ∷ s) n e = elim (Bool-cases (c == b'.')) [
  | inl dot ↦
      let (digits, n_is) = some_digits-Digits 1 n s (simp dot at e) in
      let n_suc : suc (digits_length s) ≡ n = omega (arith, n_is) in
      subst (λ k. Fraction (c ∷ s) (drop k (c ∷ s))) n_suc
        (subst (λ k. Fraction (k ∷ s) (drop (digits_length s) s)) (sym ((==_iff c b'.').0 dot))
          (fraction s _ digits))
  | inr other ↦
      subst (λ k. Fraction (c ∷ s) (drop k (c ∷ s))) (some_inj (simp other at e))
        (no_fraction (c ∷ s))
]

exponent_sign-ExponentSign : (s : Bytes) → ExponentSign s (drop (exponent_sign s) s)
unfolding exponent_sign
exponent_sign-ExponentSign [] = no_exponent_sign []
exponent_sign-ExponentSign (c ∷ s) = elim (Bool-cases (c == b'+' || c == b'-')) [
  | inl signed ↦
      let one : exponent_sign (c ∷ s) ≡ 1 = rw signed refl in
      subst (λ k. ExponentSign (c ∷ s) (drop k (c ∷ s))) (sym one)
        (signed_exponent c s (ground (arith, signed)))
  | inr other ↦ rw other (no_exponent_sign (c ∷ s))
]

exponent_length-Exponent : (s : Bytes) (n : ℕ) → exponent_length s ≡ some n → Exponent s (drop n s)
unfolding exponent_length
exponent_length-Exponent [] n e = subst (λ k. Exponent [] (drop k [])) (some_inj e) (no_exponent [])
exponent_length-Exponent (c ∷ s) n e = elim (Bool-cases (c == b'e' || c == b'E')) [
  | inl mark ↦
      let k = exponent_sign s in
      let (digits, n_is) = some_digits-Digits (1 + k) n (drop k s) (simp mark at e) in
      let n_suc : suc (k + digits_length (drop k s)) ≡ n = omega (arith, n_is) in
      subst (λ j. Exponent (c ∷ s) (drop j (c ∷ s))) n_suc
        (subst (Exponent (c ∷ s)) (sym (drop_sum k (digits_length (drop k s)) s))
          (exponent c s (drop k s) _ (ground (arith, mark)) (exponent_sign-ExponentSign s) digits))
  | inr other ↦
      subst (λ k. Exponent (c ∷ s) (drop k (c ∷ s))) (some_inj (simp other at e))
        (no_exponent (c ∷ s))
]

scan_number-Primitive : (s : Bytes) (n : ℕ) → scan_number s ≡ some n → Primitive s (drop n s)
unfolding scan_number
scan_number-Primitive s n e =
    let a = sign_length s in
    let (b, eb, e1) =
      >>=-eq-some (integer_length (drop a s))
        (λ b. do
          c ← fraction_length (drop (a + b) s)
          d ← exponent_length (drop (a + b + c) s)
          guard (is_delimiter (drop (a + b + c + d) s))
          some (a + b + c + d))
        e in
    let (c, ec, e2) =
      >>=-eq-some (fraction_length (drop (a + b) s))
        (λ c. do
          d ← exponent_length (drop (a + b + c) s)
          guard (is_delimiter (drop (a + b + c + d) s))
          some (a + b + c + d))
        e1 in
    let (d, ed, e3) =
      >>=-eq-some (exponent_length (drop (a + b + c) s))
        (λ d. do guard (is_delimiter (drop (a + b + c + d) s)); some (a + b + c + d)) e2 in
    let (ends, e4) =
      guard-eq-some (is_delimiter (drop (a + b + c + d) s)) (some (a + b + c + d)) e3 in
    subst (λ k. Primitive s (drop k s)) (some_inj e4)
      (number s (drop a s) (drop (a + b) s) (drop (a + b + c) s) (drop (a + b + c + d) s)
        (sign_length-Sign s)
        (subst (Integer (drop a s)) (sym (drop_sum a b s)) (integer_length-Integer (drop a s) b eb))
        (subst (Fraction (drop (a + b) s)) (sym (drop_sum (a + b) c s))
          (fraction_length-Fraction (drop (a + b) s) c ec))
        (subst (Exponent (drop (a + b + c) s)) (sym (drop_sum (a + b + c) d s))
          (exponent_length-Exponent (drop (a + b + c) s) d ed)))

-- What begins with a word is that word and the rest.
begins : (word s : Bytes) (n : ℕ) → str_eq (take n s) word ≡ true → word ++ drop n s ≡ s
begins word s n e =
    subst (λ w. w ++ drop n s ≡ s) ((str_eq_iff (take n s) word).0 e) (take-append-drop n s)

literal_length-Primitive : (s : Bytes) (n : ℕ) → literal_length s ≡ some n → Primitive s (drop n s)
unfolding literal_length
literal_length-Primitive s n e = elim (Bool-cases (str_eq (take 4 s) (codes "true"))) [
  | inl t ↦
      subst (λ k. Primitive s (drop k s)) (some_inj (simp t at e))
        (subst (λ w. Primitive w (drop 4 s)) (begins (codes "true") s 4 t)
          (true_literal (drop 4 s)))
  | inr nt ↦ elim (Bool-cases (str_eq (take 5 s) (codes "false"))) [
    | inl f ↦
        subst (λ k. Primitive s (drop k s)) (some_inj (simp (nt, f) at e))
          (subst (λ w. Primitive w (drop 5 s)) (begins (codes "false") s 5 f)
            (false_literal (drop 5 s)))
    | inr nf ↦ elim (Bool-cases (str_eq (take 4 s) (codes "null"))) [
      | inl u ↦
          subst (λ k. Primitive s (drop k s)) (some_inj (simp (nt, nf, u) at e))
            (subst (λ w. Primitive w (drop 4 s)) (begins (codes "null") s 4 u)
              (null_literal (drop 4 s)))
      | inr nn ↦ scan_number-Primitive s n (simp (nt, nf, nn) at e)
    ]
  ]
]

pub primitive_length-Primitive :
    (s : Bytes) (n : ℕ) → primitive_length s ≡ some n → Primitive s (drop n s)
unfolding primitive_length
primitive_length-Primitive s n e =
    let (k, ek, e1) =
      >>=-eq-some (literal_length s) (λ k. do guard (is_delimiter (drop k s)); some k) e in
    let (ends, e2) = guard-eq-some (is_delimiter (drop k s)) (some k) e1 in
    subst (λ j. Primitive s (drop j s)) (some_inj e2) (literal_length-Primitive s k ek)
