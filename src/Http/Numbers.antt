-- ===== src/Http/Numbers.antt =====
-- `parse_content_length` of src/http/http.c reads a decimal number without overflow.
use gargantua.Common.{
  ℕ, ◌+◌, ◌-◌, ◌*◌, ◌/◌, ◌≤◌, ◌<◌, true, false, not, ◌&&◌, Option, none, some, [], ◌∷◌, ◌≡◌, refl,
  sym, ◌∙◌, arith, Bytes, ltb, leb, if◌then◌else◌, length, all, ◌==◌, lt→ltb, le→leb, le→ltb-false,
  lt→leb-false, Bool-cases, le_of_ltb-false, ltb→lt, inl, inr,
}
use gargantua.Http.{is_digit, long_max, content_length_loop, parse_content_length}

-- The number that digits write, in front of which `acc` was read.
abbrev pub decimal : ℕ → Bytes → ℕ
decimal acc [] = acc
decimal acc (c ∷ cs) = decimal (acc * 10 + (c - b'0')) cs

decimal-ge : (acc : ℕ) (cs : Bytes) → acc ≤ decimal acc cs
decimal-ge acc [] = omega arith
decimal-ge acc (c ∷ cs) = omega (arith, decimal-ge (acc * 10 + (c - b'0')) cs)

-- The code's test before it multiplies is the test that the sum does not fit.
overflow_test : (num d : ℕ) → d ≤ 9 → ltb ((long_max - d) / 10) num ≡ ltb long_max (num * 10 + d)
overflow_test num d h = elim (Bool-cases (ltb ((long_max - d) / 10) num)) [
  | inl e ↦ e ∙ sym (lt→ltb long_max (num * 10 + d) (omega (arith, ltb→lt _ _ e)))
  | inr e ↦ e ∙ sym (le→ltb-false long_max (num * 10 + d) (omega (arith, le_of_ltb-false _ _ e)))
]

abbrev bounded : Bytes → ℕ → Option ℕ
bounded cs n = if all is_digit cs && leb n long_max then some n else none

bounded_large : (cs : Bytes) (n : ℕ) → long_max < n → bounded cs n ≡ none
bounded_large cs n h = elim (Bool-cases (all is_digit cs)) [
  | inl e ↦ rw (e, lt→leb-false n long_max h)
  | inr e ↦ rw e
]

content_length_loop-decimal :
    (num : ℕ) (cs : Bytes)
    → num ≤ long_max
    → content_length_loop num cs ≡ bounded cs (decimal num cs)
unfolding content_length_loop
content_length_loop-decimal num [] h = rw (le→leb num long_max h)
content_length_loop-decimal num (c ∷ cs) h = elim (Bool-cases (is_digit c)) [
  | inr bad ↦ rw bad
  | inl good ↦
      let small : c - b'0' ≤ 9 = digit_small c good in
      rw (good, overflow_test num (c - b'0') small)
        (elim (Bool-cases (ltb long_max (num * 10 + (c - b'0')))) [
          | inl over ↦ rw over (
              sym (
                bounded_large cs _
                  (omega (arith, ltb→lt _ _ over, decimal-ge (num * 10 + (c - b'0')) cs))))
          | inr fits ↦
              rw fits
                (content_length_loop-decimal (num * 10 + (c - b'0')) cs (le_of_ltb-false _ _ fits))
        ])
]
  where
    digit_small : (c : ℕ) → is_digit c ≡ true → c - b'0' ≤ 9
    digit_small c e = ground arith

-- `parse_content_length` accepts exactly the non-empty strings of digits whose number is at most
-- LONG_MAX, and yields that number: no value wraps round.
pub parse_content_length-decimal :
    (value : Bytes)
    → parse_content_length value ≡ (
        if not (length value == 0) && (all is_digit value && leb (decimal 0 value) long_max)
        then some (decimal 0 value)
        else none)
unfolding parse_content_length
parse_content_length-decimal [] = refl
parse_content_length-decimal (c ∷ cs) =
    rw nonempty (content_length_loop-decimal 0 (c ∷ cs) (omega arith))
  where
    nonempty : (length (c ∷ cs) == 0) ≡ false
    nonempty = ground arith
