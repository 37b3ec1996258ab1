-- ===== src/Auth/Secret.antt =====
-- `secret_equals` of src/runtime/auth.c, the comparison in constant time.
use Prim.Native.Nat.{bit_or, bit_xor, bit_or-bitwise, bit_xor-bitwise, digits, differ, max}
use gargantua.Common.{
  ℕ, zero, suc, ◌+◌, ◌/◌, ◌^◌, ◌%◌, ◌≤◌, ◌<◌, true, false, ◌||◌, [], ◌∷◌, Bytes, length, leb, ◌==◌,
  ◌≡◌, ◌≢◌, ◌↔◌, ◌⊎◌, inl, inr, refl, sym, ap, ◌∙◌, arith,
}
use gargantua.Auth.{token_cap, byte_or_0, different_loop, secret_equals}

differ-zero : (x y : ℕ) → differ x y ≡ 0 → x ≡ y
differ-zero zero y e = sym e
differ-zero (suc x) zero e = e
differ-zero (suc x) (suc y) e = ap suc (differ-zero x y e)

differ-same : (x : ℕ) → differ x x ≡ 0
differ-same zero = refl
differ-same (suc x) = differ-same x

differ-below : (x y : ℕ) → differ x y ≤ x + y
differ-below zero y = omega arith
differ-below (suc x) zero = omega arith
differ-below (suc x) (suc y) = omega (arith, differ-below x y)

abbrev xor_digits : ℕ → ℕ → ℕ → ℕ
xor_digits n a b = digits (λ b. b) differ n a b

abbrev or_digits : ℕ → ℕ → ℕ → ℕ
or_digits n a b = digits (λ b. b) max n a b

xor_digits-zero : (n a b : ℕ) → a ≤ n → xor_digits n a b ≡ 0 → a ≡ b
xor_digits-zero zero a b small e = omega (arith, small, e)
xor_digits-zero (suc n) zero b small e = sym e
xor_digits-zero (suc n) (suc a) b small e =
    let high = xor_digits-zero n (suc a / 2) (b / 2) (omega (arith, small)) (omega (arith, e)) in
    let low = differ-zero (suc a % 2) (b % 2) (omega (arith, e)) in omega (arith, high, low)

xor_digits-same : (n a : ℕ) → a ≤ n → xor_digits n a a ≡ 0
xor_digits-same zero a small = omega (arith, small)
xor_digits-same (suc n) zero small = refl
xor_digits-same (suc n) (suc a) small =
    omega (arith, xor_digits-same n (suc a / 2) (omega (arith, small)), differ-same (suc a % 2))

xor_digits-below : (n a b : ℕ) → xor_digits n a b ≤ a + b
xor_digits-below zero a b = omega arith
xor_digits-below (suc n) zero b = omega arith
xor_digits-below (suc n) (suc a) b =
    omega (arith, xor_digits-below n (suc a / 2) (b / 2), differ-below (suc a % 2) (b % 2))

or_digits-zero : (n a b : ℕ) → a ≤ n → or_digits n a b ≡ 0 → (a ≡ 0) × (b ≡ 0)
or_digits-zero zero a b small e = (omega (arith, small), e)
or_digits-zero (suc n) zero b small e = (refl, e)
or_digits-zero (suc n) (suc a) b small e =
    let high = or_digits-zero n (suc a / 2) (b / 2) (omega (arith, small)) (omega (arith, e)) in
    let low : max (suc a % 2) (b % 2) ≡ 0 = omega (arith, e) in
    (omega (arith, high.0, low), omega (arith, high.1, low))

bit_xor-digits : (a b : ℕ) → bit_xor a b ≡ xor_digits a a b
bit_xor-digits a b = λ i. bit_xor-bitwise a b i

bit_or-digits : (a b : ℕ) → bit_or a b ≡ or_digits a a b
bit_or-digits a b = λ i. bit_or-bitwise a b i

bit_xor-below : (a b : ℕ) → bit_xor a b ≤ a + b
bit_xor-below a b = rw bit_xor-digits (xor_digits-below a a b)

bit_xor-zero : (a b : ℕ) → bit_xor a b ≡ 0 → a ≡ b
bit_xor-zero a b e = xor_digits-zero a a b (omega arith) (sym (bit_xor-digits a b) ∙ e)

bit_xor-same : (a : ℕ) → bit_xor a a ≡ 0
bit_xor-same a = bit_xor-digits a a ∙ xor_digits-same a a (omega arith)

bit_or-zero : (a b : ℕ) → bit_or a b ≡ 0 → (a ≡ 0) × (b ≡ 0)
bit_or-zero a b e = or_digits-zero a a b (omega arith) (sym (bit_or-digits a b) ∙ e)

-- What the loop says when it ends with 0.
different_loop-zero :
    (n i : ℕ) (value secret : Bytes) (d : ℕ)
    → different_loop n i value secret d ≡ 0
    → (d ≡ 0) × ((j : ℕ) → i ≤ j → j < i + n → byte_or_0 value j ≡ byte_or_0 secret j)
unfolding different_loop
different_loop-zero zero i value secret d e = (e, λ j low high. absurd (omega (arith, low, high)))
different_loop-zero (suc n) i value secret d e =
    let rest =
      different_loop-zero n (suc i) value secret
        (bit_or d (bit_xor (byte_or_0 value i) (byte_or_0 secret i))) e in
    let now = bit_or-zero d (bit_xor (byte_or_0 value i) (byte_or_0 secret i)) rest.0 in
    (
      now.0,
      λ j low high. elim (at_or_after i j low) [
        | inl here ↦ rw⁻¹ here (bit_xor-zero (byte_or_0 value i) (byte_or_0 secret i) now.1)
        | inr after ↦ rest.1 j after (omega (arith, high))
      ],
    )
  where
    at_or_after : (i j : ℕ) → i ≤ j → (i ≡ j) ⊎ (suc i ≤ j)
    at_or_after i j low = omega (arith, low)

different_loop-same : (n i : ℕ) (value : Bytes) → different_loop n i value value 0 ≡ 0
unfolding different_loop
different_loop-same zero i value = refl
different_loop-same (suc n) i value =
    let none_yet : bit_or 0 (bit_xor (byte_or_0 value i) (byte_or_0 value i)) ≡ 0 =
      ap (bit_or 0) (bit_xor-same (byte_or_0 value i)) ∙ bit_or-digits 0 0 in
    ap (different_loop n (suc i) value value) none_yet ∙ different_loop-same n (suc i) value

-- Strings of one length are equal if their bytes are.
bytes-equal :
    (v s : Bytes)
    → length v ≡ length s
    → ((j : ℕ) → j < length v → byte_or_0 v j ≡ byte_or_0 s j)
    → v ≡ s
bytes-equal [] [] e same = refl
bytes-equal [] (y ∷ s) e same = absurd (omega (arith, e))
bytes-equal (x ∷ v) [] e same = absurd (omega (arith, e))
bytes-equal (x ∷ v) (y ∷ s) e same =
    let head : x ≡ y = same 0 (omega arith) in
    let tail : v ≡ s =
      bytes-equal v s (omega (arith, e)) (λ j small. same (suc j) (omega (arith, small))) in
    cc

length-positive : (s : Bytes) → s ≢ [] → 0 < length s
length-positive [] set = absurd (set refl)
length-positive (x ∷ s) set = omega arith

-- `secret_equals` answers 1 exactly when the value is the stored secret, byte for byte, and the secret
-- is set; a stored secret is shorter than its array.
pub secret_equals_iff :
    (value secret : Bytes)
    → length secret < token_cap
    → (secret_equals value secret ≡ true) ↔ ((value ≡ secret) × (secret ≢ []))
unfolding secret_equals
secret_equals_iff value secret fits = (sound, complete)
  where
    start : ℕ
    start = bit_xor (length value) (length secret) % 2 ^ 32

    sound : secret_equals value secret ≡ true → (value ≡ secret) × (secret ≢ [])
    sound e =
        let open_test : (length secret == 0 || leb token_cap (length value) ≡ false)
            × (different_loop token_cap 0 value secret start ≡ 0) =
          ground (arith, e) in
        let (d, same) = different_loop-zero token_cap 0 value secret start open_test.1 in
        let short : (0 < length secret) × (length value < token_cap) =
          ground (arith, open_test.0) in
        let xor : bit_xor (length value) (length secret) ≡ 0 =
          omega (arith, d, bit_xor-below (length value) (length secret), short, fits) in
        (
          bytes-equal value secret (bit_xor-zero _ _ xor)
              (λ j small. same j (omega arith) (omega (arith, small, short))),
          λ empty. absurd (omega (arith, ap length empty, short.0)),
        )

    complete : (value ≡ secret) × (secret ≢ []) → secret_equals value secret ≡ true
    complete (e, set) =
        let open_test : (length secret == 0 || leb token_cap (length secret)) ≡ false =
          ground (arith, length-positive secret set, fits) in
        let zero_start : bit_xor (length secret) (length secret) % 2 ^ 32 ≡ 0 =
          ap (λ n. n % 2 ^ 32) (bit_xor-same (length secret)) in
        let zero_end : different_loop token_cap 0 secret secret
              (bit_xor (length secret) (length secret) % 2 ^ 32)
            ≡ 0 =
          ap (different_loop token_cap 0 secret secret) zero_start
          ∙ different_loop-same token_cap 0 secret in
        rw (e, open_test, zero_end) refl
