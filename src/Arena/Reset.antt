-- ===== src/Arena/Reset.antt =====
-- `arena_init`, `arena_reset` and `arena_free` of src/core/arena.c.
use mathlib.Core.Path.{subst}
use gargantua.Common.{
  ℕ, zero, suc, ◌≤◌, ◌<◌, Bool, true, false, ◌&&◌, Option, none, some, List, [], ◌∷◌, ◌++◌, Bytes,
  All, all, take, drop, ltb, leb, ◌≡◌, inl, inr, refl, sym, ap, ◌∙◌, arith, Bool-cases, append-nil,
  append_assoc, le_of_ltb-false, leb→le, lt_of_leb-false, some_inj, some-ne-none,
}
use gargantua.Arena.{
  ArenaChunk, Arena, Swept, size_mod, min_size, keep_max, secure_zero, chunk_ok, arena_init, wiped,
  sweep_chunk, sweep, arena_reset,
}
use gargantua.Arena.Valid.{PairwiseApart, ChunkIsValid, spare_list, IsValid}

-- A freed arena has no budget, a new one has nothing else.
pub arena_init-IsValid :
    (max : ℕ) (a : Arena)
    → max < size_mod
    → arena_init max ≡ some a
    → IsValid a × (a.max ≡ max) × (min_size ≤ max)
unfolding arena_init
arena_init-IsValid max a small e = elim (Bool-cases (ltb max min_size)) [
  | inl little ↦
      let gone : arena_init max ≡ none = rw little refl in absurd (some-ne-none (sym e ∙ gone))
  | inr enough ↦
      let made : arena_init max
          ≡ some (record { head = []; spare = none; used = 0; max = max; peak = 0; refusals = 0 }) =
        rw enough refl in
      subst (λ b. IsValid b × (b.max ≡ max) × (min_size ≤ max)) (some_inj (sym made ∙ e))
        (
          record {
            chunks = tt;
            apart = tt;
            total = refl;
            used_in = omega arith;
            max_small = small;
            peak_above = omega arith;
          },
          refl,
          le_of_ltb-false _ _ enough,
        )
]

-- The bytes a chunk had handed out are 0 (there are as many as were handed out).
abbrev pub IsWiped : ℕ → Bytes → Type 0
IsWiped n p = All (λ b. b ≡ 0) (take n p)

pub secure_zero-IsWiped : (n : ℕ) (p : Bytes) → IsWiped n (secure_zero n p)
unfolding secure_zero
secure_zero-IsWiped zero p = tt
secure_zero-IsWiped (suc n) [] = tt
secure_zero-IsWiped (suc n) (b ∷ p) = (refl, secure_zero-IsWiped n p)

abbrev IsLarge : ArenaChunk → Type 0
IsLarge c = keep_max < c.cap

and_true : (b : Bool) → b ≡ b && true
and_true b = ground arith

and_swap : (b i k : Bool) → (b && i) && k ≡ i && (b && k)
and_swap b i k = ground arith

abbrev wiped_all : List ArenaChunk → List ArenaChunk
wiped_all [] = []
wiped_all (c ∷ cs) = wiped c ∷ wiped_all cs

wiped_all-append : (xs ys : List ArenaChunk) → wiped_all (xs ++ ys) ≡ wiped_all xs ++ wiped_all ys
wiped_all-append [] ys = refl
wiped_all-append (x ∷ xs) ys = ap (◌∷◌ (wiped x)) (wiped_all-append xs ys)

-- The result of a sweep of `cs` that began with no chunk kept.
abbrev Sorted : List ArenaChunk → Option ArenaChunk → List ArenaChunk → Type 0
Sorted cs none released = All IsLarge cs × (released ≡ wiped_all cs)
Sorted cs (some k) released =
    (xs : List ArenaChunk) × (c : ArenaChunk) × (ys : List ArenaChunk) × (cs ≡ xs ++ (c ∷ ys))
    × All IsLarge xs
    × (c.cap ≤ keep_max)
    × (k ≡ record (wiped c) { used = 0 })
    × (released ≡ wiped_all (xs ++ ys))

abbrev start : Bool → Option ArenaChunk → List ArenaChunk → Swept
start i spare r = record { intact = i; spare = spare; released = r }

sweep_chunk-small :
    (c : ArenaChunk) (i : Bool) (r : List ArenaChunk)
    → leb c.cap keep_max ≡ true
    → sweep_chunk c (start i none r)
      ≡ start (chunk_ok c && i) (some (record (wiped c) { used = 0 })) r
unfolding sweep_chunk
sweep_chunk-small c i r small = rw small refl

sweep_chunk-large :
    (c : ArenaChunk) (i : Bool) (r : List ArenaChunk)
    → leb c.cap keep_max ≡ false
    → sweep_chunk c (start i none r) ≡ start (chunk_ok c && i) none (r ++ (wiped c ∷ []))
unfolding sweep_chunk
sweep_chunk-large c i r large = rw large refl

sweep-intact :
    (cs : List ArenaChunk) (i : Bool) (spare : Option ArenaChunk) (r : List ArenaChunk)
    → (sweep cs (start i spare r)).intact ≡ i && all chunk_ok cs
unfolding sweep sweep_chunk
sweep-intact [] i spare r = and_true i
sweep-intact (c ∷ cs) i (some k) r =
    sweep-intact cs (chunk_ok c && i) (some k) (r ++ (wiped c ∷ []))
    ∙ and_swap (chunk_ok c) i (all chunk_ok cs)
sweep-intact (c ∷ cs) i none r = elim (Bool-cases (leb c.cap keep_max)) [
  | inl small ↦
      ap (λ s. (sweep cs s).intact) (sweep_chunk-small c i r small)
      ∙ sweep-intact cs (chunk_ok c && i) (some (record (wiped c) { used = 0 })) r
      ∙ and_swap (chunk_ok c) i (all chunk_ok cs)
  | inr large ↦
      ap (λ s. (sweep cs s).intact) (sweep_chunk-large c i r large)
      ∙ sweep-intact cs (chunk_ok c && i) none (r ++ (wiped c ∷ []))
      ∙ and_swap (chunk_ok c) i (all chunk_ok cs)
]

-- Once a chunk is kept, all others go.
sweep-kept :
    (cs : List ArenaChunk) (i : Bool) (k : ArenaChunk) (r : List ArenaChunk)
    → ((sweep cs (start i (some k) r)).spare ≡ some k)
      × ((sweep cs (start i (some k) r)).released ≡ r ++ wiped_all cs)
unfolding sweep sweep_chunk
sweep-kept [] i k r = (refl, sym (append-nil r))
sweep-kept (c ∷ cs) i k r =
    let rest = sweep-kept cs (chunk_ok c && i) k (r ++ (wiped c ∷ [])) in
    (rest.0, rest.1 ∙ append_assoc r (wiped c ∷ []) (wiped_all cs))

All-snoc :
    (xs : List ArenaChunk) (c : ArenaChunk)
    → All IsLarge xs
    → IsLarge c
    → All IsLarge (xs ++ (c ∷ []))
All-snoc [] c a p = (p, tt)
All-snoc (x ∷ xs) c a p = (a.0, All-snoc xs c a.1 p)

sweep-Sorted :
    (cs xs : List ArenaChunk) (i : Bool)
    → All IsLarge xs
    → Sorted
        (xs ++ cs)
        (sweep cs (start i none (wiped_all xs))).spare
        (sweep cs (start i none (wiped_all xs))).released
unfolding sweep
sweep-Sorted [] xs i large =
    subst (λ ys. All IsLarge ys × (wiped_all xs ≡ wiped_all ys)) (sym (append-nil xs)) (large, refl)
sweep-Sorted (c ∷ cs) xs i large = elim (Bool-cases (leb c.cap keep_max)) [
  | inl small ↦
      let k = record (wiped c) { used = 0 } in
      let after = sweep-kept cs (chunk_ok c && i) k (wiped_all xs) in
      subst (λ s. Sorted (xs ++ (c ∷ cs)) (sweep cs s).spare (sweep cs s).released)
        (sym (sweep_chunk-small c i (wiped_all xs) small))
        (subst
          (λ o.
            Sorted (xs ++ (c ∷ cs)) o
              (sweep cs (start (chunk_ok c && i) (some k) (wiped_all xs))).released)
          (sym after.0)
          (xs, c, cs, refl, large, leb→le _ _ small, refl, after.1 ∙ sym (wiped_all-append xs cs)))
  | inr big ↦
      let ok = chunk_ok c && i in
      let rest =
        sweep-Sorted cs (xs ++ (c ∷ [])) ok (All-snoc xs c large (lt_of_leb-false _ _ big)) in
      subst (λ s. Sorted (xs ++ (c ∷ cs)) (sweep cs s).spare (sweep cs s).released)
        (sym (sweep_chunk-large c i (wiped_all xs) big))
        (subst
          (λ w.
            Sorted (xs ++ (c ∷ cs)) (sweep cs (start ok none w)).spare
              (sweep cs (start ok none w)).released)
          (wiped_all-append xs (c ∷ []))
          (subst
            (λ l.
              Sorted l (sweep cs (start ok none (wiped_all (xs ++ (c ∷ []))))).spare
                (sweep cs (start ok none (wiped_all (xs ++ (c ∷ []))))).released)
            (append_assoc xs (c ∷ []) cs) rest))
]

-- What the spare chunk and the chunks given back are, from those before.
abbrev Shared : List ArenaChunk → Option ArenaChunk → Option ArenaChunk → List ArenaChunk → Type 0
Shared cs none spare released = Sorted cs spare released
Shared cs (some k) spare released = (spare ≡ some k) × (released ≡ wiped_all cs)

sweep-Shared :
    (cs : List ArenaChunk) (spare : Option ArenaChunk)
    → Shared cs spare
        (sweep cs (start true spare [])).spare
        (sweep cs (start true spare [])).released
sweep-Shared cs none = sweep-Sorted cs [] true tt
sweep-Shared cs (some k) = sweep-kept cs true k []

Spare-IsValid :
    (cs : List ArenaChunk) (spare left : Option ArenaChunk) (released : List ArenaChunk)
    → All ChunkIsValid (spare_list spare ++ cs)
    → Shared cs spare left released
    → All ChunkIsValid (spare_list left ++ [])
Spare-IsValid cs (some k) left released v s =
    subst (λ o. All ChunkIsValid (spare_list o ++ [])) (sym s.0) (v.0, tt)
Spare-IsValid cs none none released v s = tt
Spare-IsValid cs none (some k) released v (xs, c, ys, e, large, small, same, gone) = (
  subst ChunkIsValid (sym same)
      (record { used_in = omega arith; cap_small = omega (arith, small) }),
  tt,
)

Spare-PairwiseApart : (left : Option ArenaChunk) → PairwiseApart (spare_list left ++ [])
Spare-PairwiseApart none = tt
Spare-PairwiseApart (some k) = (tt, tt)

-- The bytes with the first `n` of them set to 0.
abbrev pub all_zero : Bytes → Bytes
all_zero [] = []
all_zero (b ∷ p) = 0 ∷ all_zero p

abbrev pub cleared : ArenaChunk → ArenaChunk
cleared c = record c { contents = all_zero (take c.used c.contents) ++ drop c.used c.contents }

abbrev pub cleared_all : List ArenaChunk → List ArenaChunk
cleared_all [] = []
cleared_all (c ∷ cs) = cleared c ∷ cleared_all cs

-- The chunk kept as the spare, and the chunks given back, where no spare was kept before.
abbrev pub FirstSmall : List ArenaChunk → Option ArenaChunk → List ArenaChunk → Type 0
FirstSmall cs none released = All IsLarge cs × (released ≡ cleared_all cs)
FirstSmall cs (some k) released =
    (xs : List ArenaChunk) × (c : ArenaChunk) × (ys : List ArenaChunk) × (cs ≡ xs ++ (c ∷ ys))
    × All IsLarge xs
    × (c.cap ≤ keep_max)
    × (k ≡ record (cleared c) { used = 0 })
    × (released ≡ cleared_all (xs ++ ys))

abbrev pub Parts :
    List ArenaChunk → Option ArenaChunk → Option ArenaChunk → List ArenaChunk → Type 0
Parts cs none spare released = FirstSmall cs spare released
Parts cs (some k) spare released = (spare ≡ some k) × (released ≡ cleared_all cs)

secure_zero-all_zero : (n : ℕ) (p : Bytes) → secure_zero n p ≡ all_zero (take n p) ++ drop n p
unfolding secure_zero
secure_zero-all_zero zero p = refl
secure_zero-all_zero (suc n) [] = refl
secure_zero-all_zero (suc n) (b ∷ p) = ap (λ q. 0 ∷ q) (secure_zero-all_zero n p)

wiped-cleared : (c : ArenaChunk) → wiped c ≡ cleared c
wiped-cleared c = ap (λ p. record c { contents = p }) (secure_zero-all_zero c.used c.contents)

wiped_all-cleared_all : (cs : List ArenaChunk) → wiped_all cs ≡ cleared_all cs
wiped_all-cleared_all [] = refl
wiped_all-cleared_all (c ∷ cs) = rw (wiped-cleared c, wiped_all-cleared_all cs) refl

Shared-Parts :
    (cs : List ArenaChunk) (spare left : Option ArenaChunk) (released : List ArenaChunk)
    → Shared cs spare left released
    → Parts cs spare left released
Shared-Parts cs (some k) left released (kept, gone) = (kept, gone ∙ wiped_all-cleared_all cs)
Shared-Parts cs none none released (large, gone) = (large, gone ∙ wiped_all-cleared_all cs)
Shared-Parts cs none (some k) released (xs, c, ys, e, large, small, same, gone) = (
  xs,
  c,
  ys,
  e,
  large,
  small,
  same ∙ ap {A = ArenaChunk} (λ d. record d { used = 0 }) (wiped-cleared c),
  gone ∙ wiped_all-cleared_all (xs ++ ys),
)

-- `a` was reset: `intact` is the answer, `b` the arena left, `released` what it gave back.
pub record Resets (a : Arena) (intact : Bool) (b : Arena) (released : List ArenaChunk)
    : Type 0 where
  pub valid : IsValid b
  pub no_head : b.head ≡ []
  pub no_used : b.used ≡ 0
  pub same_max : b.max ≡ a.max
  pub same_peak : b.peak ≡ a.peak
  pub canaries : intact ≡ all chunk_ok a.head
  pub parts : Parts a.head a.spare b.spare released

-- What `arena_reset` does to a valid arena: it leaves a valid one that owns no chunk but the spare,
-- with its budget and peak; it answers whether all canaries were intact; and if no spare chunk was
-- kept, it keeps the first chunk no larger than 64 KiB, and gives all others back, each with the
-- bytes that it had handed out set to 0.
pub arena_reset-Resets :
    (a : Arena) → IsValid a → Resets a (arena_reset a).0 (arena_reset a).1 (arena_reset a).2
unfolding arena_reset
arena_reset-Resets a v =
    let shared = sweep-Shared a.head a.spare in
    record {
      valid = record {
        chunks =
            Spare-IsValid a.head a.spare (sweep a.head (start true a.spare [])).spare
              (sweep a.head (start true a.spare [])).released v.chunks shared;
        apart = Spare-PairwiseApart (sweep a.head (start true a.spare [])).spare;
        total = refl;
        used_in = omega arith;
        max_small = v.max_small;
        peak_above = omega arith;
      };
      no_head = refl;
      no_used = refl;
      same_max = refl;
      same_peak = refl;
      canaries = sweep-intact a.head true a.spare [];
      parts =
          Shared-Parts a.head a.spare (sweep a.head (start true a.spare [])).spare
            (sweep a.head (start true a.spare [])).released shared;
    }
