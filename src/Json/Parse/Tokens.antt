-- ===== src/Json/Parse/Tokens.antt =====
-- The tokens that `json_parse` of src/http/json.c leaves.
use mathlib.Core.Path.{subst}
use gargantua.Common.{
  ℕ, zero, suc, ◌≤◌, ◌<◌, Option, none, some, List, [], ◌∷◌, ◌++◌, length, length-append, get_elem?,
  some_inj, some-ne-none, ◌≡◌, ◌≢◌, ◌⊎◌, inl, inr, refl, sym, ap, arith,
}
use gargantua.Json.{JsonToken}
use gargantua.Json.Parse.{Frame, set_end}
use gargantua.Json.Parse.Moves.{open_tokens, parent_of}

-- An index of the list.
pub get_elem?-lt {ℓ} :
    {A : Type ℓ} (xs : List A) (k : ℕ) (x : A) → get_elem? xs k ≡ some x → k < length xs
get_elem?-lt [] k x e = absurd (some-ne-none (sym e))
get_elem?-lt (y ∷ xs) zero x e = omega arith
get_elem?-lt (y ∷ xs) (suc k) x e = omega (arith, get_elem?-lt xs k x e)

get_elem?-snoc_old {ℓ} :
    {A : Type ℓ} (xs : List A) (y : A) (k : ℕ) (x : A)
    → get_elem? xs k ≡ some x
    → get_elem? (xs ++ (y ∷ [])) k ≡ some x
get_elem?-snoc_old [] y k x e = absurd (some-ne-none (sym e))
get_elem?-snoc_old (z ∷ xs) y zero x e = e
get_elem?-snoc_old (z ∷ xs) y (suc k) x e = get_elem?-snoc_old xs y k x e

-- An element of a list with one more is an old one or the new one.
get_elem?-snoc-cases {ℓ} :
    {A : Type ℓ} (xs : List A) (y : A) (k : ℕ) (x : A)
    → get_elem? (xs ++ (y ∷ [])) k ≡ some x
    → (get_elem? xs k ≡ some x) ⊎ ((k ≡ length xs) × (x ≡ y))
get_elem?-snoc-cases [] y zero x e = inr (refl, some_inj (sym e))
get_elem?-snoc-cases [] y (suc k) x e = absurd (some-ne-none (sym e))
get_elem?-snoc-cases (z ∷ xs) y zero x e = inl e
get_elem?-snoc-cases (z ∷ xs) y (suc k) x e = elim (get_elem?-snoc-cases xs y k x e) [
  | inl old ↦ inl old
  | inr (at, same) ↦ inr (omega (arith, at), same)
]

pub set_end-cases :
    (xs : List JsonToken) (f e k : ℕ) (x : JsonToken)
    → get_elem? (set_end xs f e) k ≡ some x
    → ((k ≢ f) × (get_elem? xs k ≡ some x))
      ⊎ ((k ≡ f) × (y : JsonToken) × (get_elem? xs k ≡ some y) × (x ≡ record y { end = some e }))
unfolding set_end
set_end-cases [] f e k x h = absurd (some-ne-none (sym h))
set_end-cases (y ∷ xs) zero e zero x h = inr (refl, y, refl, some_inj (sym h))
set_end-cases (y ∷ xs) zero e (suc k) x h = inl (λ z. omega (arith, z), h)
set_end-cases (y ∷ xs) (suc f) e zero x h = inl (λ z. omega (arith, z), h)
set_end-cases (y ∷ xs) (suc f) e (suc k) x h = elim (set_end-cases xs f e k x h) [
  | inl (other, old) ↦ inl (λ z. other (omega (arith, z)), old)
  | inr (at, u, old, same) ↦ inr (omega (arith, at), u, old, same)
]

pub length-set_end : (xs : List JsonToken) (f e : ℕ) → length (set_end xs f e) ≡ length xs
unfolding set_end
length-set_end [] f e = refl
length-set_end (x ∷ xs) zero e = refl
length-set_end (x ∷ xs) (suc f) e = ap suc (length-set_end xs f e)

pub set_end-at :
    (xs : List JsonToken) (f e k : ℕ) (x : JsonToken)
    → get_elem? xs k ≡ some x
    → (y : JsonToken) × (get_elem? (set_end xs f e) k ≡ some y)
      × (y.start ≡ x.start)
      × (((k ≢ f) × (y.end ≡ x.end)) ⊎ ((k ≡ f) × (y.end ≡ some e)))
unfolding set_end
set_end-at [] f e k x h = absurd (some-ne-none (sym h))
set_end-at (y ∷ xs) zero e zero x h =
    (record y { end = some e }, refl, ap (λ t. t.start) (some_inj h), inr (refl, refl))
set_end-at (y ∷ xs) zero e (suc k) x h = (x, h, refl, inl (λ z. omega (arith, z), refl))
set_end-at (y ∷ xs) (suc f) e zero x h = (x, h, refl, inl (λ z. omega (arith, z), refl))
set_end-at (y ∷ xs) (suc f) e (suc k) x h =
    let (u, at, start, which) = set_end-at xs f e k x h in
    (
      u,
      at,
      start,
      elim which [
        | inl (other, same) ↦ inl (λ z. other (omega (arith, z)), same)
        | inr (here, same) ↦ inr (omega (arith, here), same)
      ],
    )

-- Membership, and a list that falls from `n` on.
abbrev pub In : ℕ → List ℕ → Type 0
In k [] = ⊥
In k (x ∷ xs) = (k ≡ x) ⊎ In k xs

abbrev pub Falls : ℕ → List ℕ → Type 0
Falls n [] = Unit
Falls n (x ∷ xs) = (x < n) × Falls x xs

pub Falls-In : (n k : ℕ) (xs : List ℕ) → Falls n xs → In k xs → k < n
Falls-In n k [] f i = absurd i
Falls-In n k (x ∷ xs) (lt, f) (inl e) = omega (arith, e, lt)
Falls-In n k (x ∷ xs) (lt, f) (inr i) = omega (arith, Falls-In x k xs f i, lt)

pub Falls-weaken : (n m : ℕ) (xs : List ℕ) → n ≤ m → Falls n xs → Falls m xs
Falls-weaken n m [] h f = tt
Falls-weaken n m (x ∷ xs) h (lt, f) = (omega (arith, lt, h), f)

-- A token is closed or on the stack; what is closed ends at `i` at most.
abbrev pub Extent : ℕ → List ℕ → ℕ → ℕ → Option ℕ → Type 0
Extent i live k start none = In k live
Extent i live k start (some e) = (start ≤ e) × (e ≤ i) × (In k live → ⊥)

-- The ends of a token and of its parent's.
abbrev pub Within : Option ℕ → Option ℕ → Type 0
Within end none = Unit
Within none (some e) = ⊥
Within (some e) (some e') = e ≤ e'

abbrev pub ParentOk : List JsonToken → ℕ → JsonToken → Option ℕ → Type 0
ParentOk toks k t none = k ≡ 0
ParentOk toks k t (some p) =
    (u : JsonToken) × (get_elem? toks p ≡ some u)
    × (p < k)
    × (u.start < t.start)
    × Within t.end u.end

pub record Inv (len max i : ℕ) (toks : List JsonToken) (live : List ℕ) : Type 0 where
  pub few : length toks ≤ max
  pub falls : Falls (length toks) live
  pub open_listed :
      (k : ℕ) → In k live → (t : JsonToken) × (get_elem? toks k ≡ some t) × (t.end ≡ none)
  pub started : (k : ℕ) (t : JsonToken) → get_elem? toks k ≡ some t → t.start < i
  pub extents : (k : ℕ) (t : JsonToken) → get_elem? toks k ≡ some t → Extent i live k t.start t.end
  pub parents : (k : ℕ) (t : JsonToken) → get_elem? toks k ≡ some t → ParentOk toks k t t.parent

get_elem?-snoc {ℓ} :
    {A : Type ℓ} (xs : List A) (x : A) → get_elem? (xs ++ (x ∷ [])) (length xs) ≡ some x
get_elem?-snoc [] x = refl
get_elem?-snoc (y ∷ xs) x = get_elem?-snoc xs x

pub Extent-later :
    (i i' : ℕ) (live : List ℕ) (k start : ℕ) (o : Option ℕ)
    → i ≤ i'
    → Extent i live k start o
    → Extent i' live k start o
Extent-later i i' live k start none h e = e
Extent-later i i' live k start (some n) h (a, b, c) = (a, omega (arith, b, h), c)

Extent-enter :
    (i i' : ℕ) (live : List ℕ) (k start new : ℕ) (o : Option ℕ)
    → i ≤ i'
    → k < new
    → Extent i live k start o
    → Extent i' (new ∷ live) k start o
Extent-enter i i' live k start new none h lt e = inr e
Extent-enter i i' live k start new (some n) h lt (a, b, c) =
    (a, omega (arith, b, h), λ m. elim m [ inl same ↦ omega (arith, same, lt) | inr old ↦ c old ])

pub Extent-leave :
    (i i' : ℕ) (f : ℕ) (live : List ℕ) (k start : ℕ) (o : Option ℕ)
    → i ≤ i'
    → k ≢ f
    → Extent i (f ∷ live) k start o
    → Extent i' live k start o
Extent-leave i i' f live k start none h other e = elim e [
  | inl same ↦ absurd (other same)
  | inr m ↦ m
]
Extent-leave i i' f live k start (some n) h other (a, b, c) =
    (a, omega (arith, b, h), λ m. c (inr m))

ParentOk-snoc :
    (toks : List JsonToken) (new : JsonToken) (k : ℕ) (t : JsonToken) (p : Option ℕ)
    → ParentOk toks k t p
    → ParentOk (toks ++ (new ∷ [])) k t p
ParentOk-snoc toks new k t none h = h
ParentOk-snoc toks new k t (some p) (u, at, lt, start, within) =
    (u, get_elem?-snoc_old toks new p u at, lt, start, within)

-- The parent of a token that is added is on top of the stack.
ParentOk-new :
    (len max i : ℕ) (toks : List JsonToken) (stack : List Frame) (t : JsonToken)
    → Inv len max i toks (open_tokens stack)
    → (stack ≡ [] → length toks ≡ 0)
    → i ≤ t.start
    → ParentOk (toks ++ (t ∷ [])) (length toks) t (parent_of stack)
ParentOk-new len max i toks [] t inv first later = first refl
ParentOk-new len max i toks (f ∷ below) t inv first later =
    let (u, at, unclosed) = inv.open_listed f.token (inl refl) in
    (
      u,
      get_elem?-snoc_old toks t f.token u at,
      inv.falls.0,
      omega (arith, inv.started f.token u at, later),
      subst (Within t.end) (sym unclosed) tt,
    )

module _ (len max i i' : ℕ) (toks : List JsonToken) (stack : List Frame) (forward : i < i')
    (inv : Inv len max i toks (open_tokens stack)) where
  pub Inv-add :
      (t : JsonToken) (e : ℕ)
      → (stack ≡ [] → length toks ≡ 0)
      → t.end ≡ some e
      → t.parent ≡ parent_of stack
      → i ≤ t.start
      → t.start ≤ e
      → t.start < i'
      → e ≤ i'
      → length toks < max
      → Inv len max i' (toks ++ (t ∷ [])) (open_tokens stack)
  Inv-add t e first closed top later order before inside room = record {
    few = omega (arith, length-append toks (t ∷ []), room);
    falls =
        Falls-weaken (length toks) _ (open_tokens stack)
          (omega (arith, length-append toks (t ∷ []))) inv.falls;
    open_listed = λ k m.
        let (u, at, unclosed) = inv.open_listed k m in
        (u, get_elem?-snoc_old toks t k u at, unclosed);
    started = λ k u h. elim (get_elem?-snoc-cases toks t k u h) [
      | inl old ↦ omega (arith, inv.started k u old, forward)
      | inr (at, same) ↦ omega (arith, ap (λ t. t.start) same, before)
    ];
    extents = λ k u h. elim (get_elem?-snoc-cases toks t k u h) [
      | inl old ↦
          Extent-later i i' (open_tokens stack) k u.start u.end (omega (arith, forward))
            (inv.extents k u old)
      | inr (at, same) ↦
          rw (at, same, closed)
            (
              order,
              inside,
              λ m.
                  omega
                    (arith, Falls-In (length toks) (length toks) (open_tokens stack) inv.falls m),
            )
    ];
    parents = λ k u h. elim (get_elem?-snoc-cases toks t k u h) [
      | inl old ↦ ParentOk-snoc toks t k u u.parent (inv.parents k u old)
      | inr (at, same) ↦
          rw (at, same)
            (subst (ParentOk (toks ++ (t ∷ [])) (length toks) t) (sym top)
              (ParentOk-new len max i toks stack t inv first later))
    ];
  }

  pub Inv-enter :
      (t : JsonToken)
      → (stack ≡ [] → length toks ≡ 0)
      → t.end ≡ none
      → t.parent ≡ parent_of stack
      → t.start ≡ i
      → length toks < max
      → Inv len max i' (toks ++ (t ∷ [])) (length toks ∷ open_tokens stack)
  Inv-enter t first unclosed top here room = record {
    few = omega (arith, length-append toks (t ∷ []), room);
    falls = (omega (arith, length-append toks (t ∷ [])), inv.falls);
    open_listed = λ k m. elim m [
      | inl same ↦ rw same (t, get_elem?-snoc toks t, unclosed)
      | inr old ↦
          let (u, at, un) = inv.open_listed k old in (u, get_elem?-snoc_old toks t k u at, un)
    ];
    started = λ k u h. elim (get_elem?-snoc-cases toks t k u h) [
      | inl old ↦ omega (arith, inv.started k u old, forward)
      | inr (at, same) ↦ omega (arith, ap (λ t. t.start) same, here, forward)
    ];
    extents = λ k u h. elim (get_elem?-snoc-cases toks t k u h) [
      | inl old ↦
          Extent-enter i i' (open_tokens stack) k u.start (length toks) u.end
            (omega (arith, forward)) (get_elem?-lt toks k u old) (inv.extents k u old)
      | inr (at, same) ↦ rw (same, unclosed) (inl at)
    ];
    parents = λ k u h. elim (get_elem?-snoc-cases toks t k u h) [
      | inl old ↦ ParentOk-snoc toks t k u u.parent (inv.parents k u old)
      | inr (at, same) ↦
          rw (at, same)
            (subst (ParentOk (toks ++ (t ∷ [])) (length toks) t) (sym top)
              (ParentOk-new len max i toks stack t inv first (omega (arith, here))))
    ];
  }
