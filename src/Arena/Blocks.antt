-- ===== src/Arena/Blocks.antt =====
-- `arena_alloc` of src/core/arena.c: its outcomes, and the step that bumps a chunk.
use gargantua.Common.{
  ℕ, ◌+◌, ◌≤◌, ◌<◌, Option, none, some, List, ◌∷◌, ◌++◌, All, ◌≡◌, inl, inr, refl, arith,
}
use gargantua.Arena.{ArenaChunk, Arena, size_mod, add_size, bump, refuse}
use gargantua.Arena.Valid.{
  sum_used, PairwiseApart, ChunkIsValid, spare_list, IsValid, Holds, Disjoint, Holds-Disjoint,
  All-replace, All-middle, PairwiseApart-replace, PairwiseApart-middle,
}

-- An allocation of `n` bytes from `a` that left `b` and gave the address `p`.
pub record Allocates (a : Arena) (n : ℕ) (p : ℕ) (b : Arena) : Type 0 where
  pub valid : IsValid b
  pub held : Holds b.head p n
  pub kept : (q m : ℕ) → Holds a.head q m → Holds b.head q m
  pub disjoint : (q m : ℕ) → Holds a.head q m → Disjoint p n q m

-- A refusal gives nothing and changes only the counter.
pub record Refuses (a b : Arena) : Type 0 where
  pub valid : IsValid b
  pub same_head : b.head ≡ a.head
  pub same_spare : b.spare ≡ a.spare
  pub same_used : b.used ≡ a.used

abbrev pub Outcome : Arena → ℕ → Option ℕ × Arena → Type 0
Outcome a n (none, b) = Refuses a b
Outcome a n (some p, b) = Allocates a n p b

pub refuse-Refuses : (a : Arena) → IsValid a → Refuses a (refuse a).1
refuse-Refuses a v = record {
  valid = record {
    chunks = v.chunks;
    apart = v.apart;
    total = v.total;
    used_in = v.used_in;
    max_small = v.max_small;
    peak_above = v.peak_above;
  };
  same_head = refl;
  same_spare = refl;
  same_used = refl;
}

-- A chunk `c` that may be bumped in front of `rest`.
pub record Ready (a : Arena) (c : ArenaChunk) (rest : List ArenaChunk) (want : ℕ) : Type 0 where
  pub chunks : All ChunkIsValid (spare_list a.spare ++ (c ∷ rest))
  pub apart : PairwiseApart (spare_list a.spare ++ (c ∷ rest))
  pub total : a.used ≡ c.used + sum_used rest
  pub room : c.used + want ≤ c.cap
  pub fits : a.used + want ≤ a.max
  pub max_small : a.max < size_mod
  pub peak_above : a.used ≤ a.peak

bump-IsValid :
    (a : Arena) (c : ArenaChunk) (rest : List ArenaChunk) (want : ℕ)
    → Ready a c rest want
    → IsValid (bump a c rest want).1
unfolding bump
bump-IsValid a c rest want r =
    let d : ArenaChunk = record c { used = add_size c.used want } in
    let v = (All-middle ChunkIsValid (spare_list a.spare) c rest r.chunks).0 in
    let c_used : add_size c.used want ≡ c.used + want = omega (arith, v.cap_small, r.room) in
    let a_used : add_size a.used want ≡ a.used + want = omega (arith, r.fits, r.max_small) in
    record {
      chunks =
          All-replace ChunkIsValid (spare_list a.spare) c d rest
            (λ w. record { used_in = omega (arith, c_used, r.room); cap_small = w.cap_small })
            r.chunks;
      apart = PairwiseApart-replace (spare_list a.spare) c d rest refl refl r.apart;
      total = omega (arith, c_used, a_used, r.total);
      used_in = omega (arith, a_used, r.fits);
      max_small = r.max_small;
      peak_above = ground arith;
    }

-- The bytes in front of `want` in the chunk are free, and become the block.
pub bump-Allocates :
    (base a : Arena) (c : ArenaChunk) (rest : List ArenaChunk) (n want : ℕ)
    → Ready a c rest want
    → n ≤ want
    → ((q m : ℕ) → Holds base.head q m → Holds (c ∷ rest) q m)
    → Outcome base n (bump a c rest want)
unfolding bump
bump-Allocates base a c rest n want r small still = record {
  valid = bump-IsValid a c rest want r;
  held = inl (omega arith, omega (arith, c_used, small));
  kept = λ q m h. grow q m (still q m h);
  disjoint = λ q m h. apart_from q m (still q m h);
}
  where
    v : ChunkIsValid c × All ChunkIsValid rest
    v = All-middle ChunkIsValid (spare_list a.spare) c rest r.chunks

    c_used : add_size c.used want ≡ c.used + want
    c_used = omega (arith, v.0.cap_small, r.room)

    grow :
        (q m : ℕ)
        → Holds (c ∷ rest) q m
        → Holds (record c { used = add_size c.used want } ∷ rest) q m
    grow q m (inl h) = inl (omega (arith, h), omega (arith, h, c_used))
    grow q m (inr h) = inr h

    apart_from : (q m : ℕ) → Holds (c ∷ rest) q m → Disjoint (c.base + c.used) n q m
    apart_from q m (inl h) = inr (omega (arith, h))
    apart_from q m (inr h) =
        Holds-Disjoint c rest (c.base + c.used) n q m
          (PairwiseApart-middle (spare_list a.spare) c rest r.apart) v.1 (omega arith)
          (omega (arith, r.room, small)) h
