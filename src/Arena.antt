-- ===== src/Arena.antt =====
-- The request arena of src/core/arena.c, with the types and limits of include/arena.h, on a 64-bit
-- machine whose `long double` takes 16 bytes. `next` is the order of a list; a chunk carries the
-- bytes at its `base` and the canary behind them. What malloc, mmap and the memory's earlier use
-- decide is the parameter `os`: for a number of bytes, the block's address and bytes, or none.
pub mod Grow
pub mod Valid
pub mod Blocks
pub mod Alloc
pub mod Fits
pub mod Reset
mod Tests
use gargantua.Common.{
  ℕ, zero, suc, ◌+◌, ◌-◌, ◌*◌, ◌/◌, ◌%◌, ◌^◌, Bool, true, false, not, ◌&&◌, ◌||◌, Option, none,
  some, List, [], ◌∷◌, ◌++◌, Bytes, str_eq, ltb, leb, ◌==◌, if◌then◌else◌, drop,
}

abbrev pub size_mod : ℕ
size_mod = 2 ^ 64

abbrev pub align : ℕ
align = 16

-- `sizeof(ArenaChunk)`
abbrev pub chunk_header : ℕ
chunk_header = 48

abbrev pub canary_size : ℕ
canary_size = 16

abbrev pub min_size : ℕ
min_size = 4096

abbrev pub keep_max : ℕ
keep_max = 64 * 1024

abbrev pub mmap_min : ℕ
mmap_min = 256 * 1024

abbrev pub canary_bytes : Bytes
canary_bytes =
    0xA5 ∷ 0x5A ∷ 0xC3 ∷ 0x3C ∷ 0xA5 ∷ 0x5A ∷ 0xC3 ∷ 0x3C ∷ 0xA5 ∷ 0x5A ∷ 0xC3 ∷ 0x3C ∷ 0xA5 ∷ 0x5A
    ∷ 0xC3 ∷ 0x3C ∷ []

-- `size_t` addition and subtraction wrap.
abbrev pub add_size : ℕ → ℕ → ℕ
add_size a b = (a + b) % size_mod

abbrev pub sub_size : ℕ → ℕ → ℕ
sub_size a b = (size_mod + a - b) % size_mod

pub record ArenaChunk : Type 0 where
  pub base : ℕ
  pub cap : ℕ
  pub used : ℕ
  pub bytes : ℕ
  pub mapped : Bool
  pub contents : Bytes
  pub canary : Bytes

pub record Arena : Type 0 where
  pub head : List ArenaChunk
  pub spare : Option ArenaChunk
  pub used : ℕ
  pub max : ℕ
  pub peak : ℕ
  pub refusals : ℕ

-- A block that malloc or mmap hands out.
pub record Block : Type 0 where
  pub address : ℕ
  pub bytes : Bytes

-- The first `n` bytes become 0.
pub secure_zero : ℕ → Bytes → Bytes
secure_zero zero p = p
secure_zero (suc n) [] = []
secure_zero (suc n) (b ∷ p) = 0 ∷ secure_zero n p

-- The chunk in a new block of `total` bytes.
abbrev pub fresh_chunk : ℕ → ℕ → Block → ArenaChunk
fresh_chunk size total m = record {
  base = m.address + chunk_header;
  cap = size;
  used = 0;
  bytes = total;
  mapped = leb mmap_min total;
  contents = drop chunk_header m.bytes;
  canary = canary_bytes;
}

pub chunk_new : (ℕ → Option Block) → ℕ → Option ArenaChunk
chunk_new os size =
    let total = add_size (add_size chunk_header size) canary_size in
    if ltb total size
    then none
    else elim (os total) [ none ↦ none | some m ↦ some (fresh_chunk size total m) ]

pub chunk_ok : ArenaChunk → Bool
chunk_ok c = str_eq c.canary canary_bytes

unfoldable pub arena_init : ℕ → Option Arena
arena_init max =
    if ltb max min_size
    then none
    else some (record { head = []; spare = none; used = 0; max = max; peak = 0; refusals = 0 })

-- A refused allocation.
abbrev pub refuse : Arena → Option ℕ × Arena
refuse a = (none, record a { refusals = add_size a.refusals 1 })

-- `(n + (align - 1)) & ~(align - 1)`; `align` is a power of 2.
abbrev pub align_up : ℕ → ℕ
align_up n = add_size n (align - 1) / align * align

-- `want` bytes off the chunk `c`, which stands in front of `rest`.
pub bump : Arena → ArenaChunk → List ArenaChunk → ℕ → Option ℕ × Arena
bump a c rest want =
    let used = add_size a.used want in
    (
      some (c.base + c.used),
      record a {
        head = record c { used = add_size c.used want } ∷ rest;
        used = used;
        peak = if ltb a.peak used then used else a.peak;
      },
    )

-- The loop that doubles the capacity up to `want`, and the test behind it.
pub grow_loop : ℕ → ℕ → ℕ → ℕ → ℕ
grow_loop zero max want size = size
grow_loop (suc fuel) max want size =
    let rest = grow_loop fuel max want (size * 2 % size_mod) in
    if not (ltb size want) then size else if ltb (max / 2) size then want else rest

pub grown : ℕ → ℕ → ℕ
grown max want = let size = grow_loop 64 max want min_size in if ltb size want then want else size

-- A new chunk comes in front.
pub alloc_fresh : Arena → Option ArenaChunk → ℕ → Option ℕ × Arena
alloc_fresh a none want = refuse a
alloc_fresh a (some c) want = bump a c a.head want

-- The head chunk has no room: the spare one, if it is large enough, or a new one comes in front.
pub alloc_chunk : (ℕ → Option Block) → Arena → Option ArenaChunk → ℕ → Option ℕ × Arena
alloc_chunk os a none want = alloc_fresh a (chunk_new os (grown a.max want)) want
alloc_chunk os a (some c) want =
    if leb want c.cap
    then bump (record a { spare = none }) (record c { used = 0 }) a.head want
    else alloc_fresh a (chunk_new os (grown a.max want)) want

-- The head chunk, if it has room.
pub alloc_want : (ℕ → Option Block) → Arena → List ArenaChunk → ℕ → Option ℕ × Arena
alloc_want os a [] want = alloc_chunk os a a.spare want
alloc_want os a (c ∷ rest) want =
    if leb want (sub_size c.cap c.used) then bump a c rest want else alloc_chunk os a a.spare want

pub arena_alloc : (ℕ → Option Block) → Arena → ℕ → Option ℕ × Arena
arena_alloc os a n =
    let want = align_up n in
    if n == 0 || a.max == 0
    then (none, a)
    else if ltb (size_mod - 1 - (align - 1)) n
    then refuse a
    else if ltb (sub_size a.max a.used) want
    then refuse a
    else alloc_want os a a.head want

-- What `arena_reset` leaves: whether the canaries were intact, the chunk kept, and the chunks given
-- back to the system, as they were then.
pub record Swept : Type 0 where
  pub intact : Bool
  pub spare : Option ArenaChunk
  pub released : List ArenaChunk

abbrev pub wiped : ArenaChunk → ArenaChunk
wiped c = record c { contents = secure_zero c.used c.contents }

-- One chunk: it is kept if none is and it is small enough.
pub sweep_chunk : ArenaChunk → Swept → Swept
sweep_chunk c s =
    let intact = chunk_ok c && s.intact in
    let release = record s { intact = intact; released = s.released ++ (wiped c ∷ []) } in
    let keep = record s { intact = intact; spare = some (record (wiped c) { used = 0 }) } in
    elim s.spare [ some _ ↦ release | none ↦ if leb c.cap keep_max then keep else release ]

unfoldable pub sweep : List ArenaChunk → Swept → Swept
sweep [] s = s
sweep (c ∷ rest) s = sweep rest (sweep_chunk c s)

-- The result 0 is `true`; the chunks released come last.
unfoldable pub arena_reset : Arena → Bool × Arena × List ArenaChunk
arena_reset a =
    let s = sweep a.head (record { intact = true; spare = a.spare; released = [] }) in
    (s.intact, record a { head = []; used = 0; spare = s.spare }, s.released)

pub arena_free : Arena → Arena × List ArenaChunk
arena_free a =
    let (_, b, released) = arena_reset a in
    let last : List ArenaChunk = elim b.spare [ none ↦ [] | some c ↦ c ∷ [] ] in
    (record b { spare = none; max = 0 }, released ++ last)

pub arena_available : Arena → ℕ
arena_available a = sub_size a.max a.used
