-- ===== src/Paths/Decode.antt =====
-- `url_decode` of src/runtime/runtime_error.c.
use mathlib.Core.Path.{subst}
use gargantua.Common.{
  ℕ, zero, suc, ◌+◌, ◌-◌, ◌*◌, within, ◌≤◌, ◌<◌, Bool, true, false, not, ◌||◌, none, some, [], ◌∷◌,
  Bytes, length, drop, ltb, leb, ◌==◌, >>=-eq-some, guard-eq-some, some_inj, some-ne-none,
  Bool-cases, Option-cases, length-drop, ◌≡◌, ◌≢◌, ◌↔◌, ◌⊎◌, inl, inr, refl, sym, ap, ◌∙◌, arith,
  lt→leb-false, ==_iff,
}
use gargantua.Paths.{max_text, hex_digit_value, decoded_byte, decode_round, decode_loop, url_decode}

-- `c` is a digit of base 16 with the value `v`, its letter in either case.
abbrev pub HexDigit : ℕ → ℕ → Type 0
HexDigit c v =
    ((v < 10) × (c ≡ b'0' + v))
    ⊎ ((10 ≤ v) × (v < 16) × ((c + 10 ≡ b'a' + v) ⊎ (c + 10 ≡ b'A' + v)))

-- `%ab` stands for the byte `n`, which is no control character.
pub record Escapes (a b n : ℕ) : Type 0 where
  pub hi : ℕ
  pub lo : ℕ
  pub hi_digit : HexDigit a hi
  pub lo_digit : HexDigit b lo
  pub value : n ≡ hi * 16 + lo
  pub printable : (0x20 ≤ n) × (n ≢ 0x7f)

-- The text that `s` stands for: each byte stands for itself, or an escape for its byte.
pub data Decodes : Bytes → Bytes → Type 0 where
  nothing : Decodes [] []
  plain : {c : ℕ} {s t : Bytes} → c ≢ b'%' → Decodes s t → Decodes (c ∷ s) (c ∷ t)
  escape :
      {c a b n : ℕ} {s t : Bytes}
      → c ≡ b'%'
      → Escapes a b n
      → Decodes s t
      → Decodes (c ∷ a ∷ b ∷ s) (n ∷ t)

hex_digit_value-HexDigit : (c v : ℕ) → hex_digit_value c ≡ some v → HexDigit c v
unfolding hex_digit_value
hex_digit_value-HexDigit c v e = elim (Bool-cases (within b'0' b'9' c)) [
  | inl d ↦ let e' : c - b'0' ≡ v = some_inj (simp d at e) in ground (arith, d, e')
  | inr nd ↦ elim (Bool-cases (within b'a' b'f' c)) [
    | inl l ↦ let e' : c - b'a' + 10 ≡ v = some_inj (simp (nd, l) at e) in ground (arith, l, e')
    | inr nl ↦ elim (Bool-cases (within b'A' b'F' c)) [
      | inl u ↦
          let e' : c - b'A' + 10 ≡ v = some_inj (simp (nd, nl, u) at e) in ground (arith, u, e')
      | inr nu ↦ absurd (some-ne-none (sym (simp (nd, nl, nu) at e)))
    ]
  ]
]

pub HexDigit-hex_digit_value : (c v : ℕ) → HexDigit c v → hex_digit_value c ≡ some v
unfolding hex_digit_value
HexDigit-hex_digit_value c v (inl (small, is)) =
    let d : within b'0' b'9' c ≡ true = ground (arith, small, is) in
    rw d (ap some (omega (arith, is)))
HexDigit-hex_digit_value c v (inr (large, small, inl is)) =
    let nd : within b'0' b'9' c ≡ false = ground (arith, large, small, is) in
    let l : within b'a' b'f' c ≡ true = ground (arith, large, small, is) in
    rw (nd, l) (ap some (omega (arith, is, large)))
HexDigit-hex_digit_value c v (inr (large, small, inr is)) =
    let nd : within b'0' b'9' c ≡ false = ground (arith, large, small, is) in
    let nl : within b'a' b'f' c ≡ false = ground (arith, large, small, is) in
    let u : within b'A' b'F' c ≡ true = ground (arith, large, small, is) in
    rw (nd, nl, u) (ap some (omega (arith, is, large)))

abbrev printable_test : ℕ → Bool
printable_test n = not (ltb n 0x20 || n == 0x7f)

printable-test : (n : ℕ) → printable_test n ≡ true → (0x20 ≤ n) × (n ≢ 0x7f)
printable-test n h = (ground (arith, h), ground (arith, h))

decoded_byte-Escapes : (a b n : ℕ) (s : Bytes) → decoded_byte (a ∷ b ∷ s) ≡ some n → Escapes a b n
unfolding decoded_byte
decoded_byte-Escapes a b n s e =
    let (hi, eh, e') = >>=-eq-some (hex_digit_value a) _ e in
    let (lo, el, e'') = >>=-eq-some (hex_digit_value b) _ e' in
    let (test, same) = guard-eq-some (printable_test (hi * 16 + lo)) (some (hi * 16 + lo)) e'' in
    let value : n ≡ hi * 16 + lo = sym (some_inj same) in
    let tests : (0x20 ≤ hi * 16 + lo) × (hi * 16 + lo ≢ 0x7f) =
      printable-test (hi * 16 + lo) test in
    record {
      hi = hi;
      lo = lo;
      hi_digit = hex_digit_value-HexDigit a hi eh;
      lo_digit = hex_digit_value-HexDigit b lo el;
      value = value;
      printable = rw value tests;
    }

Escapes-decoded_byte : (a b n : ℕ) (s : Bytes) → Escapes a b n → decoded_byte (a ∷ b ∷ s) ≡ some n
unfolding decoded_byte
Escapes-decoded_byte a b n s e =
    let fine : not (ltb (e.hi * 16 + e.lo) 0x20 || e.hi * 16 + e.lo == 0x7f) ≡ true =
      ground (arith, e.value, e.printable.0, e.printable.1) in
    rw
      (
        HexDigit-hex_digit_value a e.hi e.hi_digit,
        HexDigit-hex_digit_value b e.lo e.lo_digit,
        fine,
        e.value,
      )
      refl

-- What a round at the byte `c` in front of `s` did.
data Round (c : ℕ) (s : Bytes) (b n : ℕ) : Type 0 where
  copied : c ≢ b'%' → b ≡ c → n ≡ 0 → Round c s b n
  decoded : (x y : ℕ) (u : Bytes) → c ≡ b'%' → s ≡ x ∷ y ∷ u → Escapes x y b → n ≡ 2 → Round c s b n

decoded_byte-Round :
    (c : ℕ) (s : Bytes) (b : ℕ) → c ≡ b'%' → decoded_byte s ≡ some b → Round c s b 2
decoded_byte-Round c [] b p e =
    let gone : decoded_byte [] ≡ none = (unfold decoded_byte in refl) in
    absurd (some-ne-none (sym e ∙ gone))
decoded_byte-Round c (x ∷ []) b p e =
    let gone : decoded_byte (x ∷ []) ≡ none = (unfold decoded_byte in refl) in
    absurd (some-ne-none (sym e ∙ gone))
decoded_byte-Round c (x ∷ y ∷ u) b p e = decoded x y u p refl (decoded_byte-Escapes x y b u e) refl

decode_round-Round : (c : ℕ) (s : Bytes) (b n : ℕ) → decode_round c s ≡ some (b, n) → Round c s b n
unfolding decode_round
decode_round-Round c s b n e = elim (Bool-cases (c == b'%')) [
  | inl percent ↦ elim (Option-cases (decoded_byte s)) [
    | inl bad ↦
        let gone : decode_round c s ≡ none = rw (percent, bad) refl in
        absurd (some-ne-none (sym e ∙ gone))
    | inr (d, ed) ↦
        let made : decode_round c s ≡ some (d, 2) = rw (percent, ed) refl in
        subst (λ p. Round c s p.0 p.1) (some_inj (sym made ∙ e))
          (decoded_byte-Round c s d ((==_iff c b'%').0 percent) ed)
  ]
  | inr other ↦
      let made : decode_round c s ≡ some (c, 0) = rw other refl in
      subst (λ p. Round c s p.0 p.1) (some_inj (sym made ∙ e))
        (copied (ground (arith, other)) refl refl)
]

-- One round in front of a text that is decoded.
Round-Decodes :
    (c : ℕ) (s : Bytes) (b n : ℕ) (t : Bytes)
    → Round c s b n
    → Decodes (drop n s) t
    → Decodes (c ∷ s) (b ∷ t)
Round-Decodes c s b n t (copied p eb en) d =
    rw eb (plain p (subst (λ k. Decodes (drop k s) t) en d))
Round-Decodes c s b n t (decoded x y u p es e en) d =
    rw es
      (escape p e (subst (λ v. Decodes (drop 2 v) t) es (subst (λ k. Decodes (drop k s) t) en d)))

Round-length : (c : ℕ) (s : Bytes) (b n : ℕ) → Round c s b n → n ≤ length s
Round-length c s b n (copied p eb en) = omega (arith, en)
Round-length c s b n (decoded x y u p es e en) = omega (arith, ap length es, en)

-- The whole text, while `read` and what is left stay below the code's limit.
decode_loop-Decodes :
    (rounds read : ℕ) (s t : Bytes)
    → read + length s < max_text
    → decode_loop rounds read s ≡ some t
    → Decodes s t
unfolding decode_loop
decode_loop-Decodes zero read s t small e = absurd (some-ne-none (sym e))
decode_loop-Decodes (suc rounds) read [] t small e =
    let (test, same) = guard-eq-some (not (read == max_text)) (some []) e in
    subst (Decodes []) (some_inj same) nothing
decode_loop-Decodes (suc rounds) read (c ∷ s) t small e =
    let below : leb max_text read ≡ false = lt→leb-false _ _ (omega (arith, small)) in
    elim (Option-cases (decode_round c s)) [
      | inl bad ↦
          let gone : decode_loop (suc rounds) read (c ∷ s) ≡ none = rw (below, bad) refl in
          absurd (some-ne-none (sym e ∙ gone))
      | inr ((b, n), er) ↦
          let round = decode_round-Round c s b n er in
          elim (Option-cases (decode_loop rounds (read + 1 + n) (drop n s))) [
            | inl bad ↦
                let gone : decode_loop (suc rounds) read (c ∷ s) ≡ none =
                  rw (below, er, bad) refl in
                absurd (some-ne-none (sym e ∙ gone))
            | inr (v, ev) ↦
                let made : decode_loop (suc rounds) read (c ∷ s) ≡ some (b ∷ v) =
                  rw (below, er, ev) refl in
                subst (Decodes (c ∷ s)) (some_inj (sym made ∙ e)) (
                  Round-Decodes c s b n v round (
                    decode_loop-Decodes rounds (read + 1 + n) (drop n s) v
                      (omega (arith, small, length-drop n s, Round-length c s b n round)) ev))
          ]
    ]

Decodes-decode_loop :
    (rounds read : ℕ) {s t : Bytes}
    → Decodes s t
    → length s < rounds
    → read + length s < max_text
    → decode_loop rounds read s ≡ some t
unfolding decode_loop decode_round
Decodes-decode_loop zero read d enough small = absurd (omega (arith, enough))
Decodes-decode_loop (suc rounds) read nothing enough small =
    let fine : not (read == max_text) ≡ true = ground (arith, small) in rw fine refl
Decodes-decode_loop (suc rounds) read (plain {c} {s} {t} p d) enough small =
    let below : leb max_text read ≡ false = lt→leb-false _ _ (omega (arith, small)) in
    let other : (c == b'%') ≡ false = ground (arith, p) in
    let rest =
      Decodes-decode_loop rounds (read + 1 + 0) d (omega (arith, enough)) (omega (arith, small)) in
    rw (below, other, rest) refl
Decodes-decode_loop (suc rounds) read (escape {c} {a} {b} {n} {s} {t} p e d) enough small =
    let below : leb max_text read ≡ false = lt→leb-false _ _ (omega (arith, small)) in
    let percent : (c == b'%') ≡ true = ground (arith, p) in
    let rest =
      Decodes-decode_loop rounds (read + 1 + 2) d (omega (arith, enough)) (omega (arith, small)) in
    rw (below, percent, Escapes-decoded_byte a b n s e, rest) refl

-- For a text below 1 MiB, `url_decode` succeeds with `t` exactly if the text is one that stands for
-- `t`: every byte but `%` stands for itself, and `%` with two hexadecimal digits for the byte that
-- they give, which must not be a control character.
pub url_decode_iff : (s t : Bytes) → length s < max_text → (url_decode s ≡ some t) ↔ Decodes s t
unfolding url_decode
url_decode_iff s t small = (
  decode_loop-Decodes (suc (length s)) 0 s t (omega (arith, small)),
  λ d. Decodes-decode_loop (suc (length s)) 0 d (omega arith) (omega (arith, small)),
)
