-- ===== src/Arena/Alloc.antt =====
-- `arena_alloc` of src/core/arena.c, with `chunk_new` and the choice of the chunk.
use mathlib.Core.Path.{subst}
use gargantua.Common.{
  ℕ, ◌+◌, ◌-◌, ◌≤◌, ◌<◌, true, ◌||◌, Option, none, some, List, [], ◌∷◌, ◌++◌, All, ltb, leb, ◌==◌,
  ◌≡◌, ◌⊎◌, inl, inr, refl, sym, ap, ◌∙◌, arith, Bool-cases, Option-cases, le_of_ltb-false, leb→le,
  some_inj, some-ne-none,
}
use gargantua.Arena.{
  ArenaChunk, Arena, Block, size_mod, align, chunk_header, canary_size, add_size, sub_size,
  align_up, chunk_new, fresh_chunk, grown, alloc_chunk, alloc_fresh, alloc_want, arena_alloc,
}
use gargantua.Arena.Grow.{grown-bounds}
use gargantua.Arena.Valid.{
  sum_used, Apart, PairwiseApart, ChunkIsValid, spare_list, live, IsValid, IsFresh, Holds,
  Apart-same, All-middle, PairwiseApart-insert, All-insert,
}
use gargantua.Arena.Blocks.{Outcome, Ready, bump-Allocates, refuse-Refuses}

-- What a chunk that was made is: its bytes end inside the block.
record Made (os : ℕ → Option Block) (size : ℕ) (c : ArenaChunk) : Type 0 where
  block : Block
  got : os (size + (chunk_header + canary_size)) ≡ some block
  same : c ≡ fresh_chunk size (size + (chunk_header + canary_size)) block

chunk_new-Made :
    (os : ℕ → Option Block) (size : ℕ) (c : ArenaChunk)
    → size < size_mod
    → chunk_new os size ≡ some c
    → Made os size c
unfolding chunk_new
chunk_new-Made os size c small e =
    let total = add_size (add_size chunk_header size) canary_size in
    elim (Bool-cases (ltb total size)) [
      | inl over ↦
          let gone : chunk_new os size ≡ none = rw over refl in absurd (some-ne-none (sym e ∙ gone))
      | inr fits ↦
          let exact : total ≡ size + (chunk_header + canary_size) =
            omega (arith, le_of_ltb-false _ _ fits, small) in
          elim (Option-cases (os total)) [
            | inl none_left ↦
                let gone : chunk_new os size ≡ none = rw (fits, none_left) refl in
                absurd (some-ne-none (sym e ∙ gone))
            | inr (m, got) ↦
                let made : chunk_new os size ≡ some (fresh_chunk size total m) =
                  rw (fits, got) refl in
                record {
                  block = m;
                  got = subst (λ t. os t ≡ some m) exact got;
                  same = subst (λ t. c ≡ fresh_chunk size t m) exact (some_inj (sym e ∙ made));
                }
          ]
    ]

All-fresh :
    (c : ArenaChunk) (base cap : ℕ) (cs : List ArenaChunk)
    → base + chunk_header ≤ c.base
    → c.base + c.cap ≤ base + cap
    → All (λ d. (base + cap ≤ d.base) ⊎ (d.base + d.cap ≤ base)) cs
    → All (Apart c) cs
All-fresh c base cap [] low high f = tt
All-fresh c base cap (d ∷ cs) low high f =
    (ground (arith, f.0, low, high), All-fresh c base cap cs low high f.1)

-- A new chunk is apart from all that the arena owns.
Made-Apart :
    (os : ℕ → Option Block) (a : Arena) (size : ℕ) (c : ArenaChunk)
    → IsFresh os a
    → (d : Made os size c) → All (Apart c) (live a)
Made-Apart os a size c fresh d =
    All-fresh c d.block.address (size + (chunk_header + canary_size)) (live a)
      (rw d.same (omega arith)) (rw d.same (omega arith))
      (fresh (size + (chunk_header + canary_size)) d.block d.got)

-- A new chunk in front of the head is ready.
Made-Ready :
    (os : ℕ → Option Block) (a : Arena) (size : ℕ) (c : ArenaChunk) (want : ℕ)
    → IsValid a
    → IsFresh os a
    → a.used + want ≤ a.max
    → want ≤ size
    → size < size_mod
    → Made os size c
    → Ready a c a.head want
Made-Ready os a size c want v fresh fits room small d =
    let empty : c.used ≡ 0 = ap (λ k. k.used) d.same in
    let cap : c.cap ≡ size = ap (λ k. k.cap) d.same in
    record {
      chunks =
          All-insert ChunkIsValid (spare_list a.spare) c a.head
            (record { used_in = omega (arith, empty); cap_small = omega (arith, cap, small) })
            v.chunks;
      apart =
          PairwiseApart-insert (spare_list a.spare) c a.head (Made-Apart os a size c fresh d)
            v.apart;
      total = omega (arith, empty, v.total);
      room = omega (arith, empty, cap, room);
      fits = fits;
      max_small = v.max_small;
      peak_above = v.peak_above;
    }

-- The spare chunk, taken back, is ready.
spare-Ready :
    (a : Arena) (c : ArenaChunk) (want : ℕ)
    → IsValid a
    → a.spare ≡ some c
    → a.used + want ≤ a.max
    → want ≤ c.cap
    → Ready (record a { spare = none }) (record c { used = 0 }) a.head want
spare-Ready a c want v e fits room =
    let chunks : All ChunkIsValid (c ∷ a.head) =
      subst (λ s. All ChunkIsValid (spare_list s ++ a.head)) e v.chunks in
    let apart : PairwiseApart (c ∷ a.head) =
      subst (λ s. PairwiseApart (spare_list s ++ a.head)) e v.apart in
    record {
      chunks = (record { used_in = omega arith; cap_small = chunks.0.cap_small }, chunks.1);
      apart = (Apart-same c (record c { used = 0 }) a.head refl refl apart.0, apart.1);
      total = omega (arith, v.total);
      room = omega (arith, room);
      fits = fits;
      max_small = v.max_small;
      peak_above = v.peak_above;
    }

alloc_fresh-Outcome :
    (os : ℕ → Option Block) (a : Arena) (made : Option ArenaChunk) (n want : ℕ)
    → chunk_new os (grown a.max want) ≡ made
    → IsValid a
    → IsFresh os a
    → n ≤ want
    → a.used + want ≤ a.max
    → Outcome a n (alloc_fresh a made want)
unfolding alloc_fresh
alloc_fresh-Outcome os a none n want e v fresh small fits = refuse-Refuses a v
alloc_fresh-Outcome os a (some c) n want e v fresh small fits =
    let bounds = grown-bounds a.max want (omega (arith, fits)) v.max_small in
    bump-Allocates a a c a.head n want
      (Made-Ready os a (grown a.max want) c want v fresh fits bounds.0 bounds.1
        (chunk_new-Made os (grown a.max want) c bounds.1 e))
      small (λ q m h. inr h)

alloc_chunk-Outcome :
    (os : ℕ → Option Block) (a : Arena) (spare : Option ArenaChunk) (n want : ℕ)
    → a.spare ≡ spare
    → IsValid a
    → IsFresh os a
    → n ≤ want
    → a.used + want ≤ a.max
    → Outcome a n (alloc_chunk os a spare want)
unfolding alloc_chunk
alloc_chunk-Outcome os a none n want e v fresh small fits =
    alloc_fresh-Outcome os a (chunk_new os (grown a.max want)) n want refl v fresh small fits
alloc_chunk-Outcome os a (some c) n want e v fresh small fits = elim (Bool-cases (leb want c.cap)) [
  | inr short ↦
      rw short
        (alloc_fresh-Outcome os a (chunk_new os (grown a.max want)) n want refl v fresh small fits)
  | inl room ↦ rw room (
      bump-Allocates a (record a { spare = none }) (record c { used = 0 }) a.head n want
        (spare-Ready a c want v e fits (leb→le _ _ room)) small (λ q m h. inr h))
]

-- The head chunk is ready, where it has room.
head-Ready :
    (a : Arena) (c : ArenaChunk) (rest : List ArenaChunk) (want : ℕ)
    → c ∷ rest ≡ a.head
    → IsValid a
    → a.used + want ≤ a.max
    → want ≤ sub_size c.cap c.used
    → Ready a c rest want
head-Ready a c rest want e v fits room =
    let chunks = subst (λ h. All ChunkIsValid (spare_list a.spare ++ h)) (sym e) v.chunks in
    let c_valid = (All-middle ChunkIsValid (spare_list a.spare) c rest chunks).0 in
    record {
      chunks = chunks;
      apart = subst (λ h. PairwiseApart (spare_list a.spare ++ h)) (sym e) v.apart;
      total = v.total ∙ ap sum_used (sym e);
      room = omega (arith, room, c_valid.used_in, c_valid.cap_small);
      fits = fits;
      max_small = v.max_small;
      peak_above = v.peak_above;
    }

alloc_want-Outcome :
    (os : ℕ → Option Block) (a : Arena) (head : List ArenaChunk) (n want : ℕ)
    → head ≡ a.head
    → IsValid a
    → IsFresh os a
    → n ≤ want
    → a.used + want ≤ a.max
    → Outcome a n (alloc_want os a head want)
unfolding alloc_want
alloc_want-Outcome os a [] n want e v fresh small fits =
    alloc_chunk-Outcome os a a.spare n want refl v fresh small fits
alloc_want-Outcome os a (c ∷ rest) n want e v fresh small fits =
    elim (Bool-cases (leb want (sub_size c.cap c.used))) [
      | inr short ↦ rw short (alloc_chunk-Outcome os a a.spare n want refl v fresh small fits)
      | inl room ↦ rw room (
          bump-Allocates a a c rest n want (head-Ready a c rest want e v fits (leb→le _ _ room))
            small (λ q m h. subst (λ cs. Holds cs q m) (sym e) h))
    ]

-- The C code's answer to no bytes, and to an arena that was freed.
abbrev pub Ignores : Arena → ℕ → Option ℕ × Arena → Type 0
Ignores a n r = ((n ≡ 0) ⊎ (a.max ≡ 0)) × (r ≡ (none, a))

-- On a valid arena, `arena_alloc` gives for `n` bytes either nothing, unchanged, where `n` is 0 or
-- the arena was freed; or a refusal that leaves its blocks as they are; or an address `p`. Then the
-- arena is valid again, the `n` bytes at `p` lie in the used part of one of its chunks, every block
-- that was held is held still, and none of them overlaps the new one. It is assumed that malloc and
-- mmap hand out memory that no chunk of the arena takes.
pub arena_alloc-Outcome :
    (os : ℕ → Option Block) (a : Arena) (n : ℕ)
    → IsValid a
    → IsFresh os a
    → Ignores a n (arena_alloc os a n) ⊎ Outcome a n (arena_alloc os a n)
unfolding arena_alloc
arena_alloc-Outcome os a n v fresh = elim (Bool-cases (n == 0 || a.max == 0)) [
  | inl nothing ↦ inl (zero_case nothing, rw nothing refl)
  | inr something ↦ elim (Bool-cases (ltb (size_mod - 1 - (align - 1)) n)) [
    | inl over ↦ inr (rw (something, over) (refuse-Refuses a v))
    | inr small ↦ elim (Bool-cases (ltb (sub_size a.max a.used) (align_up n))) [
      | inl full ↦ inr (rw (something, small, full) (refuse-Refuses a v))
      | inr fits ↦ inr (
          rw (something, small, fits)
            (alloc_want-Outcome os a a.head n (align_up n) refl v fresh
              (omega (arith, le_of_ltb-false _ _ small))
              (omega (arith, le_of_ltb-false _ _ fits, v.used_in, v.max_small))))
    ]
  ]
]
  where
    zero_case : (n == 0 || a.max == 0) ≡ true → (n ≡ 0) ⊎ (a.max ≡ 0)
    zero_case h = ground (arith, h)
