-- ===== src/Arena/Fits.antt =====
-- `arena_alloc` of src/core/arena.c fails only where its budget is used up.
use gargantua.Common.{
  ℕ, ◌+◌, ◌-◌, ◌*◌, ◌/◌, ◌≤◌, ◌<◌, false, ◌||◌, Option, none, some, List, [], ◌∷◌, ltb, leb, ◌==◌,
  ◌≡◌, ◌≢◌, inl, inr, refl, sym, ◌∙◌, arith, Bool-cases, le_of_ltb-false, ltb→lt, some-ne-none, ◌↔◌,
}
use gargantua.Arena.{
  ArenaChunk, Arena, Block, size_mod, align, chunk_header, canary_size, min_size, add_size,
  sub_size, align_up, bump, chunk_new, fresh_chunk, grown, alloc_chunk, alloc_fresh, alloc_want,
  arena_alloc,
}
use gargantua.Arena.Grow.{grown-below}
use gargantua.Arena.Valid.{IsValid}

-- malloc and mmap never fail.
abbrev pub HasMemory : (ℕ → Option Block) → Type 0
HasMemory os = (total : ℕ) → (m : Block) × (os total ≡ some m)

chunk_new-some :
    (os : ℕ → Option Block) (size : ℕ)
    → HasMemory os
    → size + (chunk_header + canary_size) < size_mod
    → (c : ArenaChunk) × (chunk_new os size ≡ some c)
unfolding chunk_new
chunk_new-some os size memory small =
    let total = add_size (add_size chunk_header size) canary_size in
    let fine : ltb total size ≡ false = ground (arith, small) in
    let (m, e) = memory total in (fresh_chunk size total m, rw (fine, e) refl)

alloc_want-some :
    (os : ℕ → Option Block) (a : Arena) (want : ℕ)
    → HasMemory os
    → a.max + (chunk_header + canary_size) < size_mod
    → want ≤ a.max
    → min_size ≤ a.max
    → (p : ℕ) × ((alloc_want os a a.head want).0 ≡ some p)
unfolding alloc_want alloc_chunk alloc_fresh bump
alloc_want-some os a want memory small fits least = front a.head
  where
    fresh : (p : ℕ) × ((alloc_fresh a (chunk_new os (grown a.max want)) want).0 ≡ some p)
    fresh =
        let below = grown-below a.max want a.max fits (omega arith) least in
        let (c, e) = chunk_new-some os (grown a.max want) memory (omega (arith, below, small)) in
        (c.base + c.used, rw e refl)

    chunk : (spare : Option ArenaChunk) → (p : ℕ) × ((alloc_chunk os a spare want).0 ≡ some p)
    chunk none = fresh
    chunk (some c) = elim (Bool-cases (leb want c.cap)) [
      | inl room ↦ (c.base + 0, rw room refl)
      | inr short ↦ rw short fresh
    ]

    front : (head : List ArenaChunk) → (p : ℕ) × ((alloc_want os a head want).0 ≡ some p)
    front [] = chunk a.spare
    front (c ∷ rest) = elim (Bool-cases (leb want (sub_size c.cap c.used))) [
      | inl room ↦ (c.base + c.used, rw room refl)
      | inr short ↦ rw short (chunk a.spare)
    ]

-- As long as malloc and mmap never fail and the budget is below the address space, `arena_alloc`
-- gives an address for every `n` that is not 0 and fits, rounded up to 16, in what the budget has
-- left; and it gives none for every `n` that does not fit.
pub arena_alloc-fits :
    (os : ℕ → Option Block) (a : Arena) (n : ℕ)
    → IsValid a
    → HasMemory os
    → min_size ≤ a.max
    → a.max + (chunk_header + canary_size) < size_mod
    → n ≢ 0
    → ((p : ℕ) × ((arena_alloc os a n).0 ≡ some p)) ↔ (a.used + (n + 15) / 16 * 16 ≤ a.max)
unfolding arena_alloc
arena_alloc-fits os a n v memory least small nonzero =
    elim (Bool-cases (ltb (size_mod - 1 - (align - 1)) n)) [
      | inl over ↦ (
        λ h. absurd (some-ne-none (sym h.1 ∙ rw (something, over) refl)),
        λ h. absurd (omega (arith, h, small, ltb→lt _ _ over)),
      )
      | inr inside ↦ elim (Bool-cases (ltb (sub_size a.max a.used) (align_up n))) [
        | inl full ↦ (
          λ h. absurd (some-ne-none (sym h.1 ∙ rw (something, inside, full) refl)),
          λ h. absurd (
              omega (
                arith,
                h,
                small,
                ltb→lt _ _ full,
                le_of_ltb-false _ _ inside,
                v.used_in,
                v.max_small,
              )),
        )
        | inr fits ↦ (
          λ h. omega (
            arith,
            small,
            le_of_ltb-false _ _ fits,
            le_of_ltb-false _ _ inside,
            v.used_in,
            v.max_small,
          ),
          λ h.
              rw (something, inside, fits)
                (alloc_want-some os a (align_up n) memory small
                  (omega (arith, h, le_of_ltb-false _ _ inside)) least),
        )
      ]
    ]
  where
    something : (n == 0 || a.max == 0) ≡ false
    something = ground (arith, nonzero, least)
