-- ===== src/Json/Lexical.antt =====
-- The scanner of strings in src/http/json.c takes what the grammar has.
use mathlib.Core.Path.{subst}
use gargantua.Common.{
  ℕ, zero, suc, ◌+◌, false, none, some, [], ◌∷◌, Bytes, codes, contains, drop, ltb, leb, ◌==◌,
  if◌then◌else◌, guard, ◌>>=◌, ◌>>◌, >>=-eq-some, guard-eq-some, some_inj, some-ne-none, Bool-cases,
  ==_iff, leb→le, le_of_ltb-false, lt_of_leb-false, ◌≡◌, refl, sym, ap, ◌∙◌, arith, inl, inr,
}
use gargantua.Json.{
  read_hex4, is_high_surrogate, is_low_surrogate, surrogate_follows, escape_length, char_length,
  string_length,
}
use gargantua.Json.Grammar.{
  Character, plain, wide, escape, unicode, surrogates, Text, closed, character,
}

drop_nil : (n : ℕ) → drop {A = ℕ} n [] ≡ []
drop_nil zero = refl
drop_nil (suc n) = refl

pub drop_sum : (i n : ℕ) (js : Bytes) → drop (i + n) js ≡ drop n (drop i js)
drop_sum zero n js = ap (λ k. drop k js) (omega arith)
drop_sum (suc i) n [] = let e : suc i + n ≡ suc (i + n) = omega arith in rw e (sym (drop_nil n))
drop_sum (suc i) n (c ∷ js) =
    let e : suc i + n ≡ suc (i + n) = omega arith in rw e (drop_sum i n js)

pub drop_further : (i n : ℕ) (js s : Bytes) → drop i js ≡ s → drop (i + n) js ≡ drop n s
drop_further i n js s h = drop_sum i n js ∙ ap (drop n) h

unicode-Character :
    (s : Bytes) (n v : ℕ)
    → read_hex4 s ≡ some v
    → (if is_high_surrogate v
        then guard (surrogate_follows (drop 4 s)) >> some 11
        else if is_low_surrogate v
        then none
        else some 5)
      ≡ some n
    → Character (b'\\' ∷ b'u' ∷ s) (drop n (b'u' ∷ s))
unicode-Character s n v hex e = elim (Bool-cases (is_high_surrogate v)) [
  | inl high ↦
      let (second, e1) = guard-eq-some (surrogate_follows (drop 4 s)) (some 11) (simp high at e) in
      subst (λ k. Character (b'\\' ∷ b'u' ∷ s) (drop k (b'u' ∷ s))) (some_inj e1)
        (surrogates s v hex high second)
  | inr single ↦ elim (Bool-cases (is_low_surrogate v)) [
    | inl low ↦ absurd (some-ne-none (sym (simp (single, low) at e)))
    | inr fine ↦
        let five : 5 ≡ n = some_inj (simp (single, fine) at e) in
        subst (λ k. Character (b'\\' ∷ b'u' ∷ s) (drop k (b'u' ∷ s))) five
          (unicode s v hex single fine)
  ]
]

escape_length-Character :
    (s : Bytes) (n : ℕ) → escape_length s ≡ some n → Character (b'\\' ∷ s) (drop n s)
unfolding escape_length
escape_length-Character [] n e = absurd cc
escape_length-Character (c ∷ s) n e = elim (Bool-cases (contains (codes "\"\\/bfnrt") c)) [
  | inl short ↦
      let one : 1 ≡ n = some_inj (simp short at e) in
      subst (λ k. Character (b'\\' ∷ c ∷ s) (drop k (c ∷ s))) one (escape c s short)
  | inr no_short ↦ elim (Bool-cases (c == b'u')) [
    | inr other ↦ absurd (some-ne-none (sym (simp (no_short, other) at e)))
    | inl u ↦
        let (v, hex, e1) =
          >>=-eq-some (read_hex4 s)
            (λ first.
              if is_high_surrogate first
              then guard (surrogate_follows (drop 4 s)) >> some 11
              else if is_low_surrogate first
              then none
              else some 5)
            (simp (no_short, u) at e) in
        subst (λ k. Character (b'\\' ∷ k ∷ s) (drop n (k ∷ s))) (sym ((==_iff c b'u').0 u))
          (unicode-Character s n v hex e1)
  ]
]

char_length-Character :
    (c n : ℕ) (s : Bytes)
    → (c == b'"') ≡ false
    → char_length c s ≡ some n
    → Character (c ∷ s) (drop n s)
unfolding char_length
char_length-Character c n s unquoted e = elim (Bool-cases (c == b'\\')) [
  | inl b ↦
      subst (λ k. Character (k ∷ s) (drop n s)) (sym ((==_iff c b'\\').0 b))
        (escape_length-Character s n (simp b at e))
  | inr nb ↦ elim (Bool-cases (ltb c 0x20)) [
    | inl low ↦ absurd (some-ne-none (sym (simp (nb, low) at e)))
    | inr high ↦ elim (Bool-cases (leb 0x80 c)) [
      | inl large ↦ wide c n s (leb→le _ _ large) (simp (nb, high, large) at e)
      | inr small ↦
          let none_more : 0 ≡ n = some_inj (simp (nb, high, small) at e) in
          subst (λ k. Character (c ∷ s) (drop k s)) none_more
            (plain c s (le_of_ltb-false _ _ high) (lt_of_leb-false _ _ small)
              (ground (arith, unquoted)) (ground (arith, nb)))
    ]
  ]
]

pub string_length-Text :
    (rounds n : ℕ) (s : Bytes) → string_length rounds s ≡ some n → Text s (drop (n + 1) s)
unfolding string_length
string_length-Text zero n s e = absurd cc
string_length-Text (suc rounds) n [] e = absurd cc
string_length-Text (suc rounds) n (c ∷ s) e = elim (Bool-cases (c == b'"')) [
  | inl q ↦
      let at_end : 0 ≡ n = some_inj (simp q at e) in
      subst (λ k. Text (c ∷ s) (drop (k + 1) (c ∷ s))) at_end
        (subst (λ k. Text (k ∷ s) s) (sym ((==_iff c b'"').0 q)) (closed s))
  | inr nq ↦
      let (m, em, e1) =
        >>=-eq-some (char_length c s)
          (λ m. do k ← string_length rounds (drop m s); some (1 + m + k)) (simp nq at e) in
      let (k, ek, e2) = >>=-eq-some (string_length rounds (drop m s)) (λ k. some (1 + m + k)) e1 in
      let n_is : n + 1 ≡ suc (m + (k + 1)) = omega (arith, some_inj e2) in
      let behind : drop (n + 1) (c ∷ s) ≡ drop (k + 1) (drop m s) =
        ap (λ j. drop j (c ∷ s)) n_is ∙ drop_sum m (k + 1) s in
      rw behind (
        character (c ∷ s) (drop m s) _ (char_length-Character c m s nq em)
          (string_length-Text rounds k (drop m s) ek))
]
