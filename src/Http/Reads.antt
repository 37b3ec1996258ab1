-- ===== src/Http/Reads.antt =====
-- What each piece of the parser takes off the front of its input: bytes that are no carriage
-- return. So a line ends where the parser says, and nowhere before.
use gargantua.Common.{
  ℕ, Bool, true, false, Option, none, some, List, [], ◌∷◌, ◌++◌, append_assoc, ◌≡◌, ◌≢◌, refl, sym,
  ap, ◌∙◌, Bytes, if◌then◌else◌, All, ◌>>=◌, ◌>>◌, guard,
}

abbrev pub NotCr : ℕ → Type 0
NotCr c = c ≢ b'\r'

-- `rest` stands in `p` behind bytes other than a carriage return.
pub record Reads (p rest : Bytes) : Type 0 where
  pub used : Bytes
  pub not_cr : All NotCr used
  pub splits : p ≡ used ++ rest

pub Reads-refl : (p : Bytes) → Reads p p
Reads-refl p = record { used = []; not_cr = tt; splits = refl }

pub All-append {ℓ κ} :
    {A : Type ℓ} (P : A → Type κ) (xs ys : List A) → All P xs → All P ys → All P (xs ++ ys)
All-append P [] ys hx hy = hy
All-append P (x ∷ xs) ys hx hy = (hx.0, All-append P xs ys hx.1 hy)

pub Reads-cons : {p rest : Bytes} (c : ℕ) → NotCr c → Reads p rest → Reads (c ∷ p) rest
Reads-cons c h r = record {
  used = c ∷ r.used;
  not_cr = (h, r.not_cr);
  splits = ap (◌∷◌ c) r.splits;
}

pub Reads-trans : {p q rest : Bytes} → Reads p q → Reads q rest → Reads p rest
Reads-trans {rest = rest} r s = record {
  used = r.used ++ s.used;
  not_cr = All-append NotCr r.used s.used r.not_cr s.not_cr;
  splits = r.splits ∙ ap (◌++◌ r.used) s.splits ∙ sym (append_assoc r.used s.used rest);
}

-- A line with its end in front of `rest`.
pub record Line (p rest : Bytes) : Type 0 where
  pub used : Bytes
  pub not_cr : All NotCr used
  pub splits : p ≡ used ++ (b'\r' ∷ b'\n' ∷ rest)

pub Reads-Line : {p q rest : Bytes} → Reads p q → Line q rest → Line p rest
Reads-Line {rest = rest} r l = record {
  used = r.used ++ l.used;
  not_cr = All-append NotCr r.used l.used r.not_cr l.not_cr;
  splits = r.splits ∙ ap (◌++◌ r.used) l.splits ∙ sym (append_assoc r.used l.used _);
}

-- Where a parser succeeds on `p`, it leaves a rest that stands in relation `R` to `p`.
abbrev pub Leaves : {A : Type 0} → (Bytes → Bytes → Type 0) → Bytes → Option (A × Bytes) → Type 0
Leaves R p none = Unit
Leaves R p (some (a, rest)) = R p rest

abbrev pub LeavesRest : (Bytes → Bytes → Type 0) → Bytes → Option Bytes → Type 0
LeavesRest R p none = Unit
LeavesRest R p (some rest) = R p rest

-- A relation that bytes read in front do not disturb.
abbrev pub Extends : (Bytes → Bytes → Type 0) → Type 0
Extends R = (p q rest : Bytes) → Reads p q → R q rest → R p rest

module _ (R : Bytes → Bytes → Type 0) (extends : Extends R) {B : Type 0} where
  pub Leaves-extend :
      {p q : Bytes} → Reads p q → (m : Option (B × Bytes)) → Leaves R q m → Leaves R p m
  Leaves-extend r none h = tt
  Leaves-extend r (some (b, rest)) h = extends _ _ rest r h

  pub Leaves-bind :
      {A : Type 0} (p : Bytes) (m : Option (A × Bytes)) (k : A × Bytes → Option (B × Bytes))
      → Leaves Reads p m
      → ((a : A) (q : Bytes) → Leaves R q (k (a, q)))
      → Leaves R p (m >>= k)
  Leaves-bind p none k h f = tt
  Leaves-bind p (some (a, q)) k h f = Leaves-extend h (k (a, q)) (f a q)

module _ (R : Bytes → Bytes → Type 0) {B : Type 0} where
  pub Leaves-guard :
      (p : Bytes) (t : Bool) (k : Option (B × Bytes)) → Leaves R p k → Leaves R p (guard t >> k)
  Leaves-guard p true k h = h
  Leaves-guard p false k h = tt

  pub Leaves-if :
      (p : Bytes) (t : Bool) (a b : Option (B × Bytes))
      → (t ≡ true → Leaves R p a)
      → (t ≡ false → Leaves R p b)
      → Leaves R p (if t then a else b)
  Leaves-if p true a b h k = h refl
  Leaves-if p false a b h k = k refl

  pub Leaves-rest :
      (extends : Extends R) (p : Bytes) (m : Option Bytes) (k : Bytes → Option (B × Bytes))
      → LeavesRest Reads p m
      → ((q : Bytes) → Leaves R q (k q))
      → Leaves R p (m >>= k)
  Leaves-rest extends p none k h f = tt
  Leaves-rest extends p (some q) k h f = Leaves-extend R extends h (k q) (f q)
