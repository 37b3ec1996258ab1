-- ===== src/Arena/Tests.antt =====
-- `arena_alloc`, `arena_reset` and `arena_free` on an arena with one chunk.
use gargantua.Common.{
  ℕ, ◌+◌, ◌*◌, ◌/◌, ◌≤◌, false, Option, none, some, [], ◌∷◌, ◌≡◌, ◌↔◌, ◌⊎◌, inr, refl, arith,
  str_eq, some_inj,
}
use gargantua.Arena.{
  ArenaChunk, Arena, Block, canary_bytes, bump, chunk_new, chunk_ok, grow_loop, grown, alloc_fresh,
  alloc_chunk, alloc_want, arena_alloc, sweep_chunk, sweep, arena_reset,
}
use gargantua.Arena.Valid.{IsValid, IsFresh}
use gargantua.Arena.Alloc.{Ignores, arena_alloc-Outcome}
use gargantua.Arena.Fits.{HasMemory, arena_alloc-fits}
use gargantua.Arena.Blocks.{Outcome}
use gargantua.Arena.Reset.{Resets, arena_reset-Resets}

abbrev one_block : ℕ → Option Block
one_block total = some (record { address = 20000; bytes = [] })

abbrev chunk : ArenaChunk
chunk = record {
  base = 10048;
  cap = 4096;
  used = 112;
  bytes = 4160;
  mapped = false;
  contents = 7 ∷ 8 ∷ [];
  canary = canary_bytes;
}

abbrev arena : Arena
arena = record {
  head = chunk ∷ [];
  spare = none;
  used = 112;
  max = 65536;
  peak = 112;
  refusals = 0;
}

arena-IsValid : IsValid arena
arena-IsValid = record {
  chunks = (record { used_in = omega arith; cap_small = omega arith }, tt);
  apart = (tt, tt);
  total = refl;
  used_in = omega arith;
  max_small = omega arith;
  peak_above = omega arith;
}

one_block-IsFresh : IsFresh one_block arena
one_block-IsFresh total m e = (inr (rw⁻¹ (some_inj e) (omega arith)), tt)

arena_alloc-head : (arena_alloc one_block arena 20).0 ≡ some 10160
unfolding arena_alloc alloc_want bump
arena_alloc-head = refl

arena_alloc-new : (arena_alloc one_block arena 5000).0 ≡ some 20048
unfolding arena_alloc alloc_want alloc_chunk alloc_fresh chunk_new grown grow_loop bump
arena_alloc-new = refl

arena_reset-canary :
    (arena_reset (record arena { head = record chunk { canary = [] } ∷ [] })).0 ≡ false
unfolding arena_reset sweep sweep_chunk chunk_ok str_eq
arena_reset-canary = refl

arena_alloc-Outcome_example :
    Ignores arena 5000 (arena_alloc one_block arena 5000)
    ⊎ Outcome arena 5000 (arena_alloc one_block arena 5000)
arena_alloc-Outcome_example =
    arena_alloc-Outcome one_block arena 5000 arena-IsValid one_block-IsFresh

one_block-HasMemory : HasMemory one_block
one_block-HasMemory total = (record { address = 20000; bytes = [] }, refl)

arena_alloc-fits_example :
    ((p : ℕ) × ((arena_alloc one_block arena 70000).0 ≡ some p))
    ↔ (arena.used + (70000 + 15) / 16 * 16 ≤ arena.max)
arena_alloc-fits_example =
    arena_alloc-fits one_block arena 70000 arena-IsValid one_block-HasMemory (omega arith)
      (omega arith) (omega arith)

arena_reset-Resets_example :
    Resets arena (arena_reset arena).0 (arena_reset arena).1 (arena_reset arena).2
arena_reset-Resets_example = arena_reset-Resets arena arena-IsValid
