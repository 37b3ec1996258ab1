-- ===== src/Buffer/Contents.antt =====
-- `dynbuf_init`, `dynbuf_consume` and `dynbuf_release` of src/core/dynbuf.c.
use mathlib.Core.Path.{subst}
use gargantua.Common.{
  ℕ, zero, suc, ◌+◌, ◌-◌, ◌≤◌, ◌<◌, true, false, Option, none, some, [], ◌∷◌, Bytes, length, take,
  drop, ltb, ◌==◌, ◌≡◌, inl, inr, refl, sym, ap, ◌∙◌, arith, Bool-cases, le_of_ltb-false, some_inj,
  some-ne-none, length-append, length-take, length-drop,
}
use gargantua.Arena.{size_mod}
use gargantua.Buffer.{DynBuf, memmove_front, dynbuf_init, dynbuf_consume}
use gargantua.Buffer.Reserve.{block_bytes, contents, IsValid, take-append}

abbrev the_empty : Bytes
the_empty = []

take-nil : (j : ℕ) → the_empty ≡ take j []
take-nil zero = refl
take-nil (suc j) = refl

drop-nil : (j : ℕ) → the_empty ≡ drop j []
drop-nil zero = refl
drop-nil (suc j) = refl

drop-take : (n k : ℕ) (p : Bytes) → drop n (take k p) ≡ take (k - n) (drop n p)
drop-take zero k p = ap (λ m. take m p) (omega arith)
drop-take (suc n) zero p =
    let none_left : 0 ≡ 0 - suc n = omega arith in ap (λ m. take m (drop (suc n) p)) none_left
drop-take (suc n) (suc k) [] = take-nil (suc k - suc n)
drop-take (suc n) (suc k) (x ∷ p) = drop-take n k p ∙ ap (λ m. take m (drop n p)) (omega arith)

memmove_front-keeps :
    (left n : ℕ) (o : Option Bytes)
    → left + n ≤ length (block_bytes o)
    → (length (block_bytes (memmove_front left n o)) ≡ length (block_bytes o))
      × (take left (block_bytes (memmove_front left n o)) ≡ take left (drop n (block_bytes o)))
memmove_front-keeps left n none small = (refl, ap (take left) (drop-nil n))
memmove_front-keeps left n (some p) small = (
  length-append (take left (drop n p)) (drop left p)
      ∙ omega (arith, length-take left (drop n p), length-drop n p, length-drop left p, small),
  take-append left (drop n p) (drop left p) (omega (arith, length-drop n p, small)),
)

-- `dynbuf_consume` of `n` bytes, at most as many as the buffer holds, leaves a valid buffer that holds
-- the bytes behind them, in the same memory.
pub dynbuf_consume-contents :
    (b : DynBuf) (n : ℕ)
    → IsValid b
    → n ≤ b.len
    → IsValid (dynbuf_consume b n)
      × (contents (dynbuf_consume b n) ≡ drop n (contents b))
      × ((dynbuf_consume b n).len ≡ b.len - n)
      × ((dynbuf_consume b n).cap ≡ b.cap)
unfolding dynbuf_consume
dynbuf_consume-contents b n v small =
    let keeps =
      memmove_front-keeps (b.len - n) n b.block (omega (arith, v.size, v.len_in, small)) in
    elim (Bool-cases (ltb 0 (b.len - n))) [
      | inl some_left ↦ rw some_left (after (memmove_front (b.len - n) n b.block) keeps.0 keeps.1)
      | inr none_left ↦
          let zero_left : b.len - n ≡ 0 = omega (arith, le_of_ltb-false _ _ none_left) in
          rw none_left (
            after b.block refl (
              subst (λ k. take k (block_bytes b.block) ≡ take k (drop n (block_bytes b.block)))
                (sym zero_left) refl))
    ]
  where
    after :
        (o : Option Bytes)
        → length (block_bytes o) ≡ length (block_bytes b.block)
        → take (b.len - n) (block_bytes o) ≡ take (b.len - n) (drop n (block_bytes b.block))
        → IsValid (record b { block = o; len = b.len - n })
          × (take (b.len - n) (block_bytes o) ≡ drop n (contents b))
          × (b.len - n ≡ b.len - n)
          × (b.cap ≡ b.cap)
    after o size same = (
      record {
        size = size ∙ v.size;
        len_in = omega (arith, v.len_in);
        max_small = v.max_small;
        cap_small = v.cap_small;
        same_bytes = v.same_bytes;
        mapped_large = v.mapped_large;
      },
      same ∙ sym (drop-take n b.len (block_bytes b.block)),
      refl,
      refl,
    )

true-ne-false : true ≡ false → ⊥
true-ne-false e = cc

abbrev new_buffer : ℕ → DynBuf
new_buffer max = record {
  block = none;
  len = 0;
  cap = 0;
  max = max;
  bytes = 0;
  mapped = false;
  truncated = false;
}

-- A buffer without memory.
released-IsValid :
    (b : DynBuf)
    → b.block ≡ none
    → b.len ≡ 0
    → b.cap ≡ 0
    → b.bytes ≡ 0
    → b.mapped ≡ false
    → b.max < size_mod
    → IsValid b
released-IsValid b block len cap bytes mapped small = record {
  size = ap (λ o. length (block_bytes o)) block ∙ sym cap;
  len_in = omega (arith, len, cap);
  max_small = small;
  cap_small = inl (omega (arith, cap));
  same_bytes = omega (arith, bytes, cap);
  mapped_large =
      (λ h. absurd (true-ne-false (sym h ∙ mapped)), λ h. absurd (omega (arith, h, cap)));
}

-- A new buffer is valid and holds nothing.
pub dynbuf_init-IsValid :
    (max : ℕ) (b : DynBuf)
    → max < size_mod
    → dynbuf_init max ≡ some b
    → IsValid b × (contents b ≡ []) × (b.max ≡ max)
unfolding dynbuf_init
dynbuf_init-IsValid max b small e = elim (Bool-cases (max == 0)) [
  | inl empty ↦
      let gone : dynbuf_init max ≡ none = rw empty refl in absurd (some-ne-none (sym e ∙ gone))
  | inr full ↦
      let made : dynbuf_init max ≡ some (new_buffer max) = rw full refl in
      subst (λ b. IsValid b × (contents b ≡ []) × (b.max ≡ max)) (some_inj (sym made ∙ e))
        (released-IsValid (new_buffer max) refl refl refl refl refl small, refl, refl)
]
