-- ===== src/Sink/Utf8.antt =====
-- UTF-8 as RFC 3629 has it, and `utf8_advance` of src/http/json.c.
use gargantua.Common.{
  ℕ, ◌-◌, ◌≤◌, true, false, some, [], ◌∷◌, Bytes, within, length, take, all, leb, ◌==◌,
  if◌then◌else◌, le→leb, ◌≡◌, ◌⊎◌, refl, arith,
}
use gargantua.Json.{is_continuation, utf8_advance, utf8_tail}

abbrev pub Between : ℕ → ℕ → ℕ → Type 0
Between lo hi c = (lo ≤ c) × (c ≤ hi)

-- Well-formed UTF-8, by the table of RFC 3629.
abbrev pub Second3 : ℕ → ℕ → Type 0
Second3 a b =
    ((a ≡ 0xE0) × Between 0xA0 0xBF b)
    ⊎ ((a ≡ 0xED) × Between 0x80 0x9F b)
    ⊎ (Between 0xE1 0xEC a × Between 0x80 0xBF b)
    ⊎ (Between 0xEE 0xEF a × Between 0x80 0xBF b)

abbrev pub Second4 : ℕ → ℕ → Type 0
Second4 a b =
    ((a ≡ 0xF0) × Between 0x90 0xBF b)
    ⊎ ((a ≡ 0xF4) × Between 0x80 0x8F b)
    ⊎ (Between 0xF1 0xF3 a × Between 0x80 0xBF b)

pub data Utf8 : Bytes → Type 0 where
  nil : Utf8 []
  one : {a : ℕ} {s : Bytes} → a ≤ 0x7F → Utf8 s → Utf8 (a ∷ s)
  two :
      {a b : ℕ} {s : Bytes} → Between 0xC2 0xDF a → Between 0x80 0xBF b → Utf8 s → Utf8 (a ∷ b ∷ s)
  three :
      {a b c : ℕ} {s : Bytes} → Second3 a b → Between 0x80 0xBF c → Utf8 s → Utf8 (a ∷ b ∷ c ∷ s)
  four :
      {a b c d : ℕ} {s : Bytes}
      → Second4 a b
      → Between 0x80 0xBF c
      → Between 0x80 0xBF d
      → Utf8 s
      → Utf8 (a ∷ b ∷ c ∷ d ∷ s)

within-Between : (lo hi c : ℕ) → Between lo hi c → within lo hi c ≡ true
within-Between lo hi c (a, b) = ground (arith, a, b)

utf8_tail-eq :
    (n lo hi b : ℕ) (s : Bytes)
    → n ≤ length (b ∷ s)
    → within lo hi b ≡ true
    → all is_continuation (take (n - 1) s) ≡ true
    → utf8_tail n lo hi (b ∷ s) ≡ some n
unfolding utf8_tail
utf8_tail-eq n lo hi b s fits first more =
    let here : leb n (length (b ∷ s)) ≡ true = le→leb _ _ fits in rw (here, first, more) refl

pub utf8_advance-two :
    (a b : ℕ) (s : Bytes)
    → Between 0xC2 0xDF a
    → Between 0x80 0xBF b
    → utf8_advance a (b ∷ s) ≡ some 1
unfolding utf8_advance
utf8_advance-two a b s fa fb =
    rw (within-Between 0xC2 0xDF a fa)
      (utf8_tail-eq 1 0x80 0xBF b s (omega arith) (within-Between 0x80 0xBF b fb) refl)

pub utf8_advance-three :
    (a b c : ℕ) (s : Bytes)
    → Second3 a b
    → Between 0x80 0xBF c
    → utf8_advance a (b ∷ c ∷ s) ≡ some 2
unfolding utf8_advance
utf8_advance-three a b c s fa fc =
    let not_two : within 0xC2 0xDF a ≡ false = ground (arith, fa) in
    let is_three : within 0xE0 0xEF a ≡ true = ground (arith, fa) in
    let second : within (if a == 0xE0 then 0xA0 else 0x80) (if a == 0xED then 0x9F else 0xBF) b
        ≡ true =
      ground (arith, fa) in
    let third : all is_continuation (c ∷ []) ≡ true = ground (arith, fc) in
    rw (not_two, is_three) (utf8_tail-eq 2 _ _ b (c ∷ s) (omega arith) second third)

pub utf8_advance-four :
    (a b c d : ℕ) (s : Bytes)
    → Second4 a b
    → Between 0x80 0xBF c
    → Between 0x80 0xBF d
    → utf8_advance a (b ∷ c ∷ d ∷ s) ≡ some 3
unfolding utf8_advance
utf8_advance-four a b c d s fa fc fd =
    let not_two : within 0xC2 0xDF a ≡ false = ground (arith, fa) in
    let not_three : within 0xE0 0xEF a ≡ false = ground (arith, fa) in
    let is_four : within 0xF0 0xF4 a ≡ true = ground (arith, fa) in
    let second : within (if a == 0xF0 then 0x90 else 0x80) (if a == 0xF4 then 0x8F else 0xBF) b
        ≡ true =
      ground (arith, fa) in
    let more : all is_continuation (c ∷ d ∷ []) ≡ true = ground (arith, fc, fd) in
    rw (not_two, not_three, is_four) (utf8_tail-eq 3 _ _ b (c ∷ d ∷ s) (omega arith) second more)
