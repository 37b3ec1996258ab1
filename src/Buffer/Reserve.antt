-- ===== src/Buffer/Reserve.antt =====
-- `dynbuf_reserve` of src/core/dynbuf.c.
use mathlib.Core.Path.{subst}
use gargantua.Common.{
  ℕ, zero, suc, ◌*◌, ◌/◌, ◌%◌, ◌≤◌, ◌<◌, Bool, true, false, Option, none, some, List, [], ◌∷◌, ◌++◌,
  Bytes, All, length, take, drop, ltb, leb, ◌==◌, if◌then◌else◌, ◌≡◌, ◌↔◌, ◌⊎◌, inl, inr, refl, sym,
  ap, ◌∙◌, arith, Bool-cases, le_of_ltb-false, leb→le, lt_of_leb-false, some_inj, some-ne-none,
  length-append, length-take, length-drop,
}
use gargantua.Arena.{size_mod}
use gargantua.Arena.Reset.{IsWiped, secure_zero-IsWiped}
use gargantua.Buffer.{
  DynBuf, System, min_chunk, mmap_least, memcpy, cap_loop, new_cap, old_block, given_block,
  use_block, mmap_copy, dynbuf_reserve,
}

abbrev pub block_bytes : Option Bytes → Bytes
block_bytes none = []
block_bytes (some p) = p

-- What the buffer holds.
abbrev pub contents : DynBuf → Bytes
contents b = take b.len (block_bytes b.block)

pub record IsValid (b : DynBuf) : Type 0 where
  pub size : length (block_bytes b.block) ≡ b.cap
  pub len_in : b.len ≤ b.cap
  pub max_small : b.max < size_mod
  pub cap_small : (b.cap ≤ b.max) ⊎ (b.cap ≤ min_chunk)
  pub same_bytes : b.bytes ≡ b.cap
  pub mapped_large : (b.mapped ≡ true) ↔ (mmap_least ≤ b.cap)

-- mmap and realloc give as many bytes as asked for, and realloc keeps the first ones.
pub record IsSystem (os : System) : Type 0 where
  pub mmap_size : (n : ℕ) (m : Bytes) → os.mmap n ≡ some m → length m ≡ n
  pub realloc_size : (p : Option Bytes) (n : ℕ) (m : Bytes) → os.realloc p n ≡ some m → length m ≡ n
  pub realloc_keeps :
      (p : Option Bytes) (n : ℕ) (m : Bytes)
      → os.realloc p n ≡ some m
      → (k : ℕ) → k ≤ length (block_bytes p)
      → k ≤ n
      → take k m ≡ take k (block_bytes p)

abbrev doubled : ℕ → ℕ → ℕ
doubled zero size = size
doubled (suc fuel) size = doubled fuel (size * 2)

cap_loop-bounds :
    (fuel max need newcap : ℕ)
    → need ≤ max
    → max < size_mod
    → max < doubled fuel newcap
    → (newcap ≤ max) ⊎ (newcap ≤ min_chunk)
    → (need ≤ cap_loop fuel max need newcap)
      × ((cap_loop fuel max need newcap ≤ max) ⊎ (cap_loop fuel max need newcap ≤ min_chunk))
unfolding cap_loop
cap_loop-bounds zero max need newcap fits small enough below = (omega arith, below)
cap_loop-bounds (suc fuel) max need newcap fits small enough below =
    elim (Bool-cases (ltb newcap need)) [
      | inr done ↦ rw done (ground arith, below)
      | inl more ↦ elim (Bool-cases (ltb (max / 2) newcap)) [
        | inl last ↦ rw (more, last) (fits, inl (omega arith))
        | inr twice ↦
            let exact : newcap * 2 % size_mod ≡ newcap * 2 = ground arith in
            rw (more, twice, exact)
              (cap_loop-bounds fuel max need (newcap * 2) fits small enough (inl (ground arith)))
      ]
    ]

new_cap-bounds :
    (b : DynBuf) (need : ℕ)
    → IsValid b
    → need ≤ b.max
    → (need ≤ new_cap b need) × ((new_cap b need ≤ b.max) ⊎ (new_cap b need ≤ min_chunk))
unfolding new_cap
new_cap-bounds b need v fits =
    let start = if b.cap == 0 then min_chunk else b.cap in
    let below : (start ≤ b.max) ⊎ (start ≤ min_chunk) = ground (arith, v.cap_small) in
    let some_room : 0 < start = ground arith in
    let bounds =
      cap_loop-bounds 64 b.max need start fits v.max_small (omega (arith, some_room, v.max_small))
        below in
    let enough : ltb (cap_loop 64 b.max need start) need ≡ false = ground (arith, bounds.0) in
    rw enough bounds

-- `b` was asked for `need` bytes: `ok` is the answer, `after` the buffer then, `released` the block
-- that went back to the system.
pub record Reserves (b : DynBuf) (need : ℕ) (ok : Bool) (after : DynBuf) (released : List Bytes)
    : Type 0 where
  pub valid : IsValid after
  pub same_contents : contents after ≡ contents b
  pub same_len : after.len ≡ b.len
  pub same_max : after.max ≡ b.max
  pub enough : (ok ≡ false) ⊎ ((need ≤ after.cap) × (need ≤ b.max))
  pub too_large : (need ≤ b.max) ⊎ ((ok ≡ false) × (after.truncated ≡ true))
  pub wiped : mmap_least ≤ after.cap → All (IsWiped b.len) released

use_block-Reserves :
    (b : DynBuf) (need newcap : ℕ) (mapped : Bool) (o : Option Bytes) (released : List Bytes)
    → IsValid b
    → ((m : Bytes) → o ≡ some m → (length m ≡ newcap) × (take b.len m ≡ contents b))
    → b.len ≤ newcap
    → need ≤ newcap
    → need ≤ b.max
    → (newcap ≤ b.max) ⊎ (newcap ≤ min_chunk)
    → (mapped ≡ true) ↔ (mmap_least ≤ newcap)
    → (mmap_least ≤ newcap → All (IsWiped b.len) released)
    → Reserves b need
        (use_block b newcap mapped o released).0
        (use_block b newcap mapped o released).1
        (use_block b newcap mapped o released).2
unfolding use_block
use_block-Reserves b need newcap mapped none released v keeps len_in enough fits below large wiped =
    record {
      valid = v;
      same_contents = refl;
      same_len = refl;
      same_max = refl;
      enough = inl refl;
      too_large = inl fits;
      wiped = λ h. tt;
    }
use_block-Reserves b need newcap mapped (some p) released v keeps len_in enough fits below large
      wiped =
    record {
      valid = record {
        size = (keeps p refl).0;
        len_in = len_in;
        max_small = v.max_small;
        cap_small = below;
        same_bytes = refl;
        mapped_large = large;
      };
      same_contents = (keeps p refl).1;
      same_len = refl;
      same_max = refl;
      enough = inr (enough, fits);
      too_large = inl fits;
      wiped = wiped;
    }

old_block-IsWiped : (b : DynBuf) (o : Option Bytes) → All (IsWiped b.len) (old_block b o)
unfolding old_block
old_block-IsWiped b none = tt
old_block-IsWiped b (some p) = (secure_zero-IsWiped b.len p, tt)

pub take-append : (n : ℕ) (p q : Bytes) → n ≤ length p → take n (take n p ++ q) ≡ take n p
take-append zero p q small = refl
take-append (suc n) [] q small = absurd (omega (arith, small))
take-append (suc n) (x ∷ p) q small = ap (◌∷◌ x) (take-append n p q (omega (arith, small)))

-- The bytes copied are the buffer's.
memcpy-keeps :
    (n : ℕ) (source : Option Bytes) (m : Bytes)
    → n ≤ length (block_bytes source)
    → n ≤ length m
    → (length (memcpy n source m) ≡ length m)
      × (take n (memcpy n source m) ≡ take n (block_bytes source))
memcpy-keeps zero none m small room = (refl, refl)
memcpy-keeps (suc n) none m small room = absurd (omega (arith, small))
memcpy-keeps n (some p) m small room = (
  length-append (take n p) (drop n m)
      ∙ omega (arith, length-take n p, length-drop n m, small, room),
  take-append n p (drop n m) small,
)

mmap_copy-keeps :
    (b : DynBuf) (newcap : ℕ) (o : Option Bytes)
    → IsValid b
    → ((m : Bytes) → o ≡ some m → length m ≡ newcap)
    → b.len ≤ newcap
    → (m : Bytes) → mmap_copy b o ≡ some m
    → (length m ≡ newcap) × (take b.len m ≡ contents b)
unfolding mmap_copy
mmap_copy-keeps b newcap none v size room m e = absurd (some-ne-none (sym e))
mmap_copy-keeps b newcap (some p) v size room m e =
    let long : length p ≡ newcap = size p refl in
    let keeps =
      memcpy-keeps b.len b.block p (omega (arith, v.size, v.len_in)) (omega (arith, long, room)) in
    subst (λ m. (length m ≡ newcap) × (take b.len m ≡ contents b)) (some_inj e)
      (keeps.0 ∙ long, keeps.1)

-- After `dynbuf_reserve`, whatever the system answers, a valid buffer is valid and holds the same
-- bytes; where the answer is 0, it has room for `need` bytes; where `need` is over the buffer's
-- maximum, the answer is -1 and the buffer is marked as truncated; and where the buffer has then 256 KiB or
-- more, a block that it gave up has the buffer's bytes set to 0 (below that, realloc gets the old block as it
-- is, and may free it). mmap and realloc are assumed to give as many bytes as
-- asked for, and realloc to keep the first ones.
pub dynbuf_reserve-Reserves :
    (os : System) (b : DynBuf) (need : ℕ)
    → IsSystem os
    → IsValid b
    → Reserves b need
        (dynbuf_reserve os b need).0
        (dynbuf_reserve os b need).1
        (dynbuf_reserve os b need).2
unfolding dynbuf_reserve
dynbuf_reserve-Reserves os b need s v = elim (Bool-cases (ltb b.max need)) [
  | inl over ↦ rw over (record {
    valid = record {
      size = v.size;
      len_in = v.len_in;
      max_small = v.max_small;
      cap_small = v.cap_small;
      same_bytes = v.same_bytes;
      mapped_large = v.mapped_large;
    };
    same_contents = refl;
    same_len = refl;
    same_max = refl;
    enough = inl refl;
    too_large = inr (refl, refl);
    wiped = λ h. tt;
  })
  | inr fits ↦ elim (Bool-cases (leb need b.cap)) [
    | inl there ↦
        rw (fits, there)
          (record {
            valid = v;
            same_contents = refl;
            same_len = refl;
            same_max = refl;
            enough = inr (leb→le _ _ there, le_of_ltb-false _ _ fits);
            too_large = inl (le_of_ltb-false _ _ fits);
            wiped = λ h. tt;
          })
    | inr more ↦
        let in_max = le_of_ltb-false _ _ fits in
        let bounds = new_cap-bounds b need v in_max in
        let room : b.len ≤ new_cap b need =
          omega (arith, bounds.0, v.len_in, lt_of_leb-false _ _ more) in
        elim (Bool-cases (leb mmap_least (new_cap b need))) [
          | inl large ↦
              rw (fits, more, large)
                (use_block-Reserves b need (new_cap b need) true
                  (mmap_copy b (os.mmap (new_cap b need))) (old_block b b.block) v
                  (mmap_copy-keeps b (new_cap b need) (os.mmap (new_cap b need)) v
                    (s.mmap_size (new_cap b need)) room)
                  room bounds.0 in_max bounds.1 (λ h. leb→le _ _ large, λ h. refl)
                  (λ h. old_block-IsWiped b b.block))
          | inr little ↦
              rw (fits, more, little)
                (use_block-Reserves b need (new_cap b need) false
                  (os.realloc b.block (new_cap b need)) (given_block b.block) v
                  (λ m e. (
                    s.realloc_size b.block (new_cap b need) m e,
                    s.realloc_keeps b.block (new_cap b need) m e b.len
                        (omega (arith, v.size, v.len_in)) room,
                  ))
                  room bounds.0 in_max bounds.1
                  (λ h. cc, λ h. absurd (omega (arith, h, lt_of_leb-false _ _ little)))
                  (λ h. absurd (omega (arith, h, lt_of_leb-false _ _ little))))
        ]
  ]
]
