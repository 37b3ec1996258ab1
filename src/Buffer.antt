-- ===== src/Buffer.antt =====
-- The growing buffer of src/core/dynbuf.c and include/dynbuf.h, on a 64-bit machine. `block` is the
-- memory behind the pointer, all `cap` bytes of it, or `none` for NULL. What mmap and realloc answer
-- is a parameter. A block that the buffer gives up is returned, as it was then.
pub mod Reserve
pub mod Contents
mod Tests
use gargantua.Common.{
  ℕ, zero, suc, ◌+◌, ◌-◌, ◌*◌, ◌/◌, ◌%◌, ◌^◌, Bool, true, false, not, ◌&&◌, ◌||◌, Option, none,
  some, List, [], ◌∷◌, ◌++◌, Bytes, ltb, leb, ◌==◌, if◌then◌else◌, take, drop,
}
use gargantua.Arena.{secure_zero, size_mod}

abbrev pub min_chunk : ℕ
min_chunk = 8192

abbrev pub mmap_least : ℕ
mmap_least = 256 * 1024

pub record DynBuf : Type 0 where
  pub block : Option Bytes
  pub len : ℕ
  pub cap : ℕ
  pub max : ℕ
  pub bytes : ℕ
  pub mapped : Bool
  pub truncated : Bool

pub record System : Type 0 where
  pub mmap : ℕ → Option Bytes
  pub realloc : Option Bytes → ℕ → Option Bytes

-- `n` bytes from `source` over the start of `target`.
abbrev pub memcpy : ℕ → Option Bytes → Bytes → Bytes
memcpy n none target = target
memcpy n (some source) target = take n source ++ drop n target

pub dynbuf_init : ℕ → Option DynBuf
dynbuf_init max =
    if max == 0
    then none
    else some (record {
      block = none;
      len = 0;
      cap = 0;
      max = max;
      bytes = 0;
      mapped = false;
      truncated = false;
    })

-- The loop that doubles the capacity up to `need`.
pub cap_loop : ℕ → ℕ → ℕ → ℕ → ℕ
cap_loop zero max need newcap = newcap
cap_loop (suc fuel) max need newcap =
    let rest = cap_loop fuel max need (newcap * 2 % size_mod) in
    if not (ltb newcap need) then newcap else if ltb (max / 2) newcap then max else rest

pub new_cap : DynBuf → ℕ → ℕ
new_cap b need =
    let newcap = cap_loop 64 b.max need (if b.cap == 0 then min_chunk else b.cap) in
    if ltb newcap need then need else newcap

-- The old block, wiped, on its way to munmap or free.
pub old_block : DynBuf → Option Bytes → List Bytes
old_block b none = []
old_block b (some p) = secure_zero b.len p ∷ []

-- The buffer in the new block of `newcap` bytes, if there is one.
pub use_block : DynBuf → ℕ → Bool → Option Bytes → List Bytes → Bool × DynBuf × List Bytes
use_block b newcap mapped none released = (false, b, [])
use_block b newcap mapped (some p) released =
    (true, record b { block = some p; cap = newcap; bytes = newcap; mapped = mapped }, released)

-- The old block as realloc gets it, which may keep it in place or free it as it is.
pub given_block : Option Bytes → List Bytes
given_block none = []
given_block (some p) = p ∷ []

pub mmap_copy : DynBuf → Option Bytes → Option Bytes
mmap_copy b none = none
mmap_copy b (some m) = some (memcpy b.len b.block m)

-- `true` is the result 0.
pub dynbuf_reserve : System → DynBuf → ℕ → Bool × DynBuf × List Bytes
dynbuf_reserve os b need =
    let newcap = new_cap b need in
    if ltb b.max need
    then (false, record b { truncated = true }, [])
    else if leb need b.cap
    then (true, b, [])
    else if leb mmap_least newcap
    then use_block b newcap true (mmap_copy b (os.mmap newcap)) (old_block b b.block)
    else use_block b newcap false (os.realloc b.block newcap) (given_block b.block)

-- `left` bytes from `n` on move to the front.
abbrev pub memmove_front : ℕ → ℕ → Option Bytes → Option Bytes
memmove_front left n none = none
memmove_front left n (some p) = some (take left (drop n p) ++ drop left p)

-- `n` is at most `len`, by the assertion.
pub dynbuf_consume : DynBuf → ℕ → DynBuf
dynbuf_consume b n =
    let left = b.len - n in
    record b { block = if ltb 0 left then memmove_front left n b.block else b.block; len = left }

pub wiped_block : DynBuf → Option Bytes → List Bytes
wiped_block b none = []
wiped_block b (some p) = secure_zero b.cap p ∷ []

pub dynbuf_release : DynBuf → DynBuf × List Bytes
dynbuf_release b = (
  record b { block = none; len = 0; cap = 0; bytes = 0; mapped = false; truncated = false },
  wiped_block b b.block,
)

pub dynbuf_free : DynBuf → DynBuf × List Bytes
dynbuf_free b = dynbuf_release b
