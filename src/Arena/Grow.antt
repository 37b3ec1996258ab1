-- ===== src/Arena/Grow.antt =====
-- The loop of `arena_alloc` in src/core/arena.c that doubles a chunk's capacity.
use gargantua.Common.{ℕ, zero, suc, ◌*◌, ◌/◌, ◌%◌, ◌≤◌, ◌<◌, ltb, ◌≡◌, inl, inr, arith, Bool-cases}
use gargantua.Arena.{size_mod, min_size, grow_loop, grown}

-- `size` doubled `fuel` times.
abbrev doubled : ℕ → ℕ → ℕ
doubled zero size = size
doubled (suc fuel) size = doubled fuel (size * 2)

grow_loop-bounds :
    (fuel max want size : ℕ)
    → want ≤ max
    → max < size_mod
    → max < doubled fuel size
    → size < size_mod
    → (want ≤ grow_loop fuel max want size) × (grow_loop fuel max want size < size_mod)
unfolding grow_loop
grow_loop-bounds zero max want size fits small enough below = omega arith
grow_loop-bounds (suc fuel) max want size fits small enough below =
    elim (Bool-cases (ltb size want)) [
      | inr done ↦ rw done (ground arith, omega arith)
      | inl more ↦ elim (Bool-cases (ltb (max / 2) size)) [
        | inl last ↦ rw (more, last) (omega arith, omega arith)
        | inr twice ↦
            let exact : size * 2 % size_mod ≡ size * 2 = ground arith in
            rw (more, twice, exact)
              (grow_loop-bounds fuel max want (size * 2) fits small enough (ground arith))
      ]
    ]

-- A new chunk holds what is wanted. 64 rounds are more than a 64-bit size can be doubled, so the
-- loop ends by its test and the correction behind it is never made.
pub grown-bounds :
    (max want : ℕ)
    → want ≤ max
    → max < size_mod
    → (want ≤ grown max want)
      × (grown max want < size_mod)
      × (grown max want ≡ grow_loop 64 max want min_size)
unfolding grown
grown-bounds max want fits small =
    ground (arith, grow_loop-bounds 64 max want min_size fits small (omega arith) (omega arith))

grow_loop-below :
    (fuel max want size limit : ℕ)
    → want ≤ limit
    → max ≤ limit
    → size ≤ limit
    → grow_loop fuel max want size ≤ limit
unfolding grow_loop
grow_loop-below zero max want size limit fits small below = below
grow_loop-below (suc fuel) max want size limit fits small below =
    elim (Bool-cases (ltb size want)) [
      | inr done ↦ rw done below
      | inl more ↦ elim (Bool-cases (ltb (max / 2) size)) [
        | inl last ↦ rw (more, last) fits
        | inr twice ↦
            rw (more, twice)
              (grow_loop-below fuel max want (size * 2 % size_mod) limit fits small (ground arith))
      ]
    ]

-- A new chunk is no larger than the arena's budget, or than the least size.
pub grown-below :
    (max want limit : ℕ) → want ≤ limit → max ≤ limit → min_size ≤ limit → grown max want ≤ limit
unfolding grown
grown-below max want limit fits small least =
    ground (arith, grow_loop-below 64 max want min_size limit fits small least)
