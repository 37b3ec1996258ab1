-- ===== src/Buffer/Tests.antt =====
-- A buffer that is filled, consumed, grown and released.
use gargantua.Common.{
  ℕ, zero, suc, ◌-◌, ◌≤◌, false, some, [], ◌∷◌, Bytes, length, take, drop, ◌≡◌, inl, refl, sym, ap,
  ◌∙◌, arith, some_inj,
}
use gargantua.Buffer.{DynBuf, System, dynbuf_reserve, dynbuf_consume, new_cap, cap_loop}
use gargantua.Buffer.Reserve.{
  block_bytes, contents, IsValid, IsSystem, Reserves, dynbuf_reserve-Reserves,
}
use gargantua.Buffer.Contents.{dynbuf_consume-contents}

-- `n` bytes, the first ones those of `p`.
abbrev padded : ℕ → Bytes → Bytes
padded zero p = []
padded (suc n) [] = 0 ∷ padded n []
padded (suc n) (x ∷ p) = x ∷ padded n p

abbrev plain : System
plain = record { mmap = λ n. some (padded n []); realloc = λ p n. some (padded n (block_bytes p)) }

length-padded : (n : ℕ) (p : Bytes) → length (padded n p) ≡ n
length-padded zero p = refl
length-padded (suc n) [] = ap suc (length-padded n [])
length-padded (suc n) (x ∷ p) = ap suc (length-padded n p)

take-padded : (n : ℕ) (p : Bytes) (k : ℕ) → k ≤ length p → k ≤ n → take k (padded n p) ≡ take k p
take-padded n p zero short small = refl
take-padded zero p (suc k) short small = absurd (omega (arith, small))
take-padded (suc n) [] (suc k) short small = absurd (omega (arith, short))
take-padded (suc n) (x ∷ p) (suc k) short small =
    ap (◌∷◌ x) (take-padded n p k (omega (arith, short)) (omega (arith, small)))

plain-IsSystem : IsSystem plain
plain-IsSystem = record {
  mmap_size = λ n m e. ap length (some_inj (sym e)) ∙ length-padded n [];
  realloc_size = λ p n m e. ap length (some_inj (sym e)) ∙ length-padded n (block_bytes p);
  realloc_keeps = λ p n m e k short small.
      ap (take k) (some_inj (sym e)) ∙ take-padded n (block_bytes p) k short small;
}

abbrev buffer : DynBuf
buffer = record {
  block = some (1 ∷ 2 ∷ 3 ∷ 4 ∷ []);
  len = 3;
  cap = 4;
  max = 100;
  bytes = 4;
  mapped = false;
  truncated = false;
}

buffer-IsValid : IsValid buffer
buffer-IsValid = record {
  size = refl;
  len_in = omega arith;
  max_small = omega arith;
  cap_small = inl (omega arith);
  same_bytes = refl;
  mapped_large = (λ h. cc, λ h. absurd (omega (arith, h)));
}

new_cap-doubles : new_cap buffer 9 ≡ 16
unfolding new_cap cap_loop
new_cap-doubles = refl

new_cap-max : new_cap buffer 70 ≡ 100
unfolding new_cap cap_loop
new_cap-max = refl

dynbuf_reserve-Reserves_example :
    Reserves buffer 9
      (dynbuf_reserve plain buffer 9).0
      (dynbuf_reserve plain buffer 9).1
      (dynbuf_reserve plain buffer 9).2
dynbuf_reserve-Reserves_example =
    dynbuf_reserve-Reserves plain buffer 9 plain-IsSystem buffer-IsValid

dynbuf_consume-contents_example :
    IsValid (dynbuf_consume buffer 1)
    × (contents (dynbuf_consume buffer 1) ≡ drop 1 (contents buffer))
    × ((dynbuf_consume buffer 1).len ≡ buffer.len - 1)
    × ((dynbuf_consume buffer 1).cap ≡ buffer.cap)
dynbuf_consume-contents_example = dynbuf_consume-contents buffer 1 buffer-IsValid (omega arith)
