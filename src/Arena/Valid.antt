-- ===== src/Arena/Valid.antt =====
-- The invariant of the arena of src/core/arena.c, and the memory that its chunks take.
use gargantua.Common.{
  ℕ, ◌+◌, ◌≤◌, ◌<◌, Option, none, some, List, [], ◌∷◌, ◌++◌, All, ◌≡◌, ◌⊎◌, inl, inr, arith,
}
use gargantua.Arena.{ArenaChunk, Arena, Block, size_mod}

abbrev pub sum_used : List ArenaChunk → ℕ
sum_used [] = 0
sum_used (c ∷ cs) = c.used + sum_used cs

-- Two chunks do not overlap.
abbrev pub Apart : ArenaChunk → ArenaChunk → Type 0
Apart c d = (c.base + c.cap ≤ d.base) ⊎ (d.base + d.cap ≤ c.base)

abbrev pub PairwiseApart : List ArenaChunk → Type 0
PairwiseApart [] = Unit
PairwiseApart (c ∷ cs) = All (Apart c) cs × PairwiseApart cs

pub record ChunkIsValid (c : ArenaChunk) : Type 0 where
  pub used_in : c.used ≤ c.cap
  pub cap_small : c.cap < size_mod

abbrev pub spare_list : Option ArenaChunk → List ArenaChunk
spare_list none = []
spare_list (some c) = c ∷ []

-- The chunks that the arena owns.
abbrev pub live : Arena → List ArenaChunk
live a = spare_list a.spare ++ a.head

pub record IsValid (a : Arena) : Type 0 where
  pub chunks : All ChunkIsValid (live a)
  pub apart : PairwiseApart (live a)
  pub total : a.used ≡ sum_used a.head
  pub used_in : a.used ≤ a.max
  pub max_small : a.max < size_mod
  pub peak_above : a.used ≤ a.peak

-- malloc and mmap hand out memory that no chunk of the arena takes.
abbrev pub IsFresh : (ℕ → Option Block) → Arena → Type 0
IsFresh os a =
    (total : ℕ) (m : Block)
    → os total ≡ some m
    → All (λ c. (m.address + total ≤ c.base) ⊎ (c.base + c.cap ≤ m.address)) (live a)

-- `n` bytes at the address `p` are in the used part of a chunk.
abbrev pub InUsed : ArenaChunk → ℕ → ℕ → Type 0
InUsed c p n = (c.base ≤ p) × (p + n ≤ c.base + c.used)

abbrev pub Holds : List ArenaChunk → ℕ → ℕ → Type 0
Holds [] p n = ⊥
Holds (c ∷ cs) p n = InUsed c p n ⊎ Holds cs p n

abbrev pub Disjoint : ℕ → ℕ → ℕ → ℕ → Type 0
Disjoint p n q m = (p + n ≤ q) ⊎ (q + m ≤ p)

-- What is held in chunks apart from `c` is disjoint from what lies in `c`.
pub Holds-Disjoint :
    (c : ArenaChunk) (cs : List ArenaChunk) (p n q m : ℕ)
    → All (Apart c) cs
    → All ChunkIsValid cs
    → c.base ≤ p
    → p + n ≤ c.base + c.cap
    → Holds cs q m
    → Disjoint p n q m
Holds-Disjoint c [] p n q m apart valid low high h = absurd h
Holds-Disjoint c (d ∷ cs) p n q m apart valid low high (inl (from, to)) =
    ground (arith, apart.0, valid.0.used_in)
Holds-Disjoint c (d ∷ cs) p n q m apart valid low high (inr h) =
    Holds-Disjoint c cs p n q m apart.1 valid.1 low high h

-- Ranges alone decide whether chunks are apart.
pub Apart-same :
    (c d : ArenaChunk) (cs : List ArenaChunk)
    → c.base ≡ d.base
    → c.cap ≡ d.cap
    → All (Apart c) cs
    → All (Apart d) cs
Apart-same c d [] b k a = tt
Apart-same c d (x ∷ cs) b k a = (ground (arith, a.0), Apart-same c d cs b k a.1)

pub All-replace {ℓ} :
    (P : ArenaChunk → Type ℓ) (xs : List ArenaChunk) (c d : ArenaChunk) (rest : List ArenaChunk)
    → (P c → P d)
    → All P (xs ++ (c ∷ rest))
    → All P (xs ++ (d ∷ rest))
All-replace P [] c d rest f a = (f a.0, a.1)
All-replace P (x ∷ xs) c d rest f a = (a.0, All-replace P xs c d rest f a.1)

pub All-insert {ℓ} :
    (P : ArenaChunk → Type ℓ) (xs : List ArenaChunk) (c : ArenaChunk) (rest : List ArenaChunk)
    → P c
    → All P (xs ++ rest)
    → All P (xs ++ (c ∷ rest))
All-insert P [] c rest p a = (p, a)
All-insert P (x ∷ xs) c rest p a = (a.0, All-insert P xs c rest p a.1)

pub All-middle {ℓ} :
    (P : ArenaChunk → Type ℓ) (xs : List ArenaChunk) (c : ArenaChunk) (rest : List ArenaChunk)
    → All P (xs ++ (c ∷ rest))
    → P c × All P rest
All-middle P [] c rest a = a
All-middle P (x ∷ xs) c rest a = All-middle P xs c rest a.1

pub PairwiseApart-replace :
    (xs : List ArenaChunk) (c d : ArenaChunk) (rest : List ArenaChunk)
    → c.base ≡ d.base
    → c.cap ≡ d.cap
    → PairwiseApart (xs ++ (c ∷ rest))
    → PairwiseApart (xs ++ (d ∷ rest))
PairwiseApart-replace [] c d rest b k a = (Apart-same c d rest b k a.0, a.1)
PairwiseApart-replace (x ∷ xs) c d rest b k a = (
  All-replace (Apart x) xs c d rest (λ h. ground (arith, h)) a.0,
  PairwiseApart-replace xs c d rest b k a.1,
)

pub PairwiseApart-middle :
    (xs : List ArenaChunk) (c : ArenaChunk) (rest : List ArenaChunk)
    → PairwiseApart (xs ++ (c ∷ rest))
    → All (Apart c) rest
PairwiseApart-middle [] c rest a = a.0
PairwiseApart-middle (x ∷ xs) c rest a = PairwiseApart-middle xs c rest a.1

-- A chunk apart from all is put among them.
pub PairwiseApart-insert :
    (xs : List ArenaChunk) (c : ArenaChunk) (rest : List ArenaChunk)
    → All (Apart c) (xs ++ rest)
    → PairwiseApart (xs ++ rest)
    → PairwiseApart (xs ++ (c ∷ rest))
PairwiseApart-insert [] c rest f a = (f, a)
PairwiseApart-insert (x ∷ xs) c rest f a =
    (All-insert (Apart x) xs c rest (Apart-sym c x f.0) a.0, PairwiseApart-insert xs c rest f.1 a.1)
  where
    Apart-sym : (c d : ArenaChunk) → Apart c d → Apart d c
    Apart-sym c d (inl h) = inr h
    Apart-sym c d (inr h) = inl h
