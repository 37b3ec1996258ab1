-- ===== src/Cors/Allowed.antt =====
-- Which origins `cors_prepare` of src/server/server_http.c allows.
use mathlib.Core.Path.{subst}
use gargantua.Common.{
  ℕ, zero, suc, ◌<◌, Bool, true, false, not, ◌&&◌, Option, none, some, List, [], ◌∷◌, Bytes, str_eq,
  str_eq_iff, ==_iff, to_lower, leb, ◌+◌, strcase_eq, length, ◌==◌, if◌then◌else◌, Bool-cases, ◌≡◌,
  ◌≢◌, ◌↔◌, ◌⊎◌, inl, inr, refl, sym, ap, ◌∙◌, arith,
}
use gargantua.Http.{is_blank, skip_blanks, trim_end}
use gargantua.Cors.{next_item, same_item, after_item, list_loop, list_contains}

-- The items between the commas.
abbrev cons_first : ℕ → List Bytes → List Bytes
cons_first c [] = (c ∷ []) ∷ []
cons_first c (p ∷ ps) = (c ∷ p) ∷ ps

abbrev pub items : Bytes → List Bytes
items [] = [] ∷ []
items (c ∷ s) = if c == b',' then [] ∷ items s else cons_first c (items s)

abbrev pub AnyOf : (Bytes → Type 0) → List Bytes → Type 0
AnyOf P [] = ⊥
AnyOf P (x ∷ xs) = P x ⊎ AnyOf P xs

abbrev Next : Bytes → Bytes × Option Bytes → Type 0
Next s (p, none) = items s ≡ p ∷ []
Next s (p, some r) = (items s ≡ p ∷ items r) × (length r < length s)

Next-cons :
    (c : ℕ) (s : Bytes) (r : Bytes × Option Bytes)
    → (c == b',') ≡ false
    → Next s r
    → Next (c ∷ s) (c ∷ r.0, r.1)
Next-cons c s (p, none) other e = rw (other, e) refl
Next-cons c s (p, some r) other (e, shorter) = (rw (other, e) refl, omega (arith, shorter))

next_item-Next : (s : Bytes) → Next s (next_item s)
unfolding next_item
next_item-Next [] = refl
next_item-Next (c ∷ s) = elim (Bool-cases (c == b',')) [
  | inl comma ↦
      let made : next_item (c ∷ s) ≡ ([], some s) = rw comma refl in
      subst (Next (c ∷ s)) (sym made) (rw comma refl, omega arith)
  | inr other ↦
      let made : next_item (c ∷ s) ≡ (c ∷ (next_item s).0, (next_item s).1) = rw other refl in
      subst (Next (c ∷ s)) (sym made) (Next-cons c s (next_item s) other (next_item-Next s))
]

-- Blanks in front are in front of the first item.
next_item-skip_blanks :
    (s : Bytes) → next_item (skip_blanks s) ≡ (skip_blanks (next_item s).0, (next_item s).1)
unfolding next_item skip_blanks
next_item-skip_blanks [] = refl
next_item-skip_blanks (c ∷ s) = elim (Bool-cases (is_blank c)) [
  | inl blank ↦
      let other : (c == b',') ≡ false = ground (arith, blank) in
      rw (blank, other, blank) (next_item-skip_blanks s)
  | inr solid ↦ elim (Bool-cases (c == b',')) [
    | inl comma ↦ rw (solid, comma) refl
    | inr other ↦ rw (solid, other, solid) refl
  ]
]

abbrev Matches : Bool → Bytes → Bytes → Type 0
Matches exact value item = same_item exact (trim_end (skip_blanks item)) value ≡ true

same_item-nothing : (v : Bytes) (b : Bool) → same_item b [] v ≡ true → v ≡ []
unfolding str_eq strcase_eq
same_item-nothing [] b h = refl
same_item-nothing (c ∷ v) true h = absurd (ground (arith, h))
same_item-nothing (c ∷ v) false h = absurd (ground (arith, h))

nothing-Matches : (value : Bytes) (exact : Bool) → Matches exact value [] → value ≡ []
unfolding trim_end skip_blanks
nothing-Matches value exact m = same_item-nothing value exact m

abbrev item_test : Bytes → Bool → Bytes → Bool
item_test value exact item =
    not (length value == 0) && same_item exact (trim_end (skip_blanks item)) value

list_loop-step :
    (rounds : ℕ) (value : Bytes) (exact : Bool) (c : ℕ) (s : Bytes)
    → list_loop (suc rounds) value exact (c ∷ s)
      ≡ after_item
          (list_loop rounds value exact)
          (item_test value exact (next_item (c ∷ s)).0)
          (next_item (c ∷ s)).1
unfolding list_loop
list_loop-step rounds value exact c s = rw (next_item-skip_blanks (c ∷ s)) refl

after_item_sound :
    (next : Bytes → Bool) (value : Bytes) (exact : Bool) (s : Bytes) (r : Bytes × Option Bytes)
    → Next s r
    → ((t : Bytes) → next t ≡ true → (value ≢ []) × AnyOf (Matches exact value) (items t))
    → after_item next (item_test value exact r.0) r.1 ≡ true
    → (value ≢ []) × AnyOf (Matches exact value) (items s)
after_item_sound next value exact s (p, rest) shape ih e =
    elim (Bool-cases (item_test value exact p)) [
      | inl here ↦
          (λ z. absurd (ground (arith, here, ap length z)), first rest shape (ground (arith, here)))
      | inr other ↦ later rest shape (rw other at e)
    ]
  where
    first :
        (rest : Option Bytes)
        → Next s (p, rest)
        → Matches exact value p
        → AnyOf (Matches exact value) (items s)
    first none shape m = rw shape (inl m)
    first (some t) (shape, shorter) m = rw shape (inl m)

    later :
        (rest : Option Bytes)
        → Next s (p, rest)
        → after_item next false rest ≡ true
        → (value ≢ []) × AnyOf (Matches exact value) (items s)
    later none shape e = absurd (ground (arith, e))
    later (some t) (shape, shorter) e = let (named, found) = ih t e in (named, rw shape (inr found))

list_loop_sound :
    (rounds : ℕ) (value : Bytes) (exact : Bool) (s : Bytes)
    → list_loop rounds value exact s ≡ true
    → (value ≢ []) × AnyOf (Matches exact value) (items s)
unfolding list_loop
list_loop_sound zero value exact s e = absurd (ground (arith, e))
list_loop_sound (suc rounds) value exact [] e = absurd (ground (arith, e))
list_loop_sound (suc rounds) value exact (c ∷ s) e =
    after_item_sound (list_loop rounds value exact) value exact (c ∷ s) (next_item (c ∷ s))
      (next_item-Next (c ∷ s)) (λ t found. list_loop_sound rounds value exact t found)
      (sym (list_loop-step rounds value exact c s) ∙ e)

length-nonempty : (v : Bytes) → v ≢ [] → (length v == 0) ≡ false
length-nonempty [] h = absurd (h refl)
length-nonempty (c ∷ v) h = ground arith

after_item_complete :
    (next : Bytes → Bool) (value : Bytes) (exact : Bool) (s : Bytes) (r : Bytes × Option Bytes)
    → Next s r
    → value ≢ []
    → ((t : Bytes) → length t < length s → AnyOf (Matches exact value) (items t) → next t ≡ true)
    → AnyOf (Matches exact value) (items s)
    → after_item next (item_test value exact r.0) r.1 ≡ true
after_item_complete next value exact s (p, none) shape named ih any =
    elim (subst (AnyOf (Matches exact value)) shape any) [
      | inl here ↦ rw (length-nonempty value named, here) refl
      | inr none_left ↦ absurd none_left
    ]
after_item_complete next value exact s (p, some t) (shape, shorter) named ih any =
    elim (subst (AnyOf (Matches exact value)) shape any) [
      | inl here ↦ rw (length-nonempty value named, here) refl
      | inr later ↦ either_way (item_test value exact p) (ih t shorter later)
    ]
  where
    either_way : (test : Bool) → next t ≡ true → after_item next test (some t) ≡ true
    either_way true found = refl
    either_way false found = found

list_loop_complete :
    (rounds : ℕ) (value : Bytes) (exact : Bool) (s : Bytes)
    → length s < rounds
    → value ≢ []
    → AnyOf (Matches exact value) (items s)
    → list_loop rounds value exact s ≡ true
unfolding list_loop
list_loop_complete zero value exact s enough named any = absurd (omega (arith, enough))
list_loop_complete (suc rounds) value exact [] enough named (inl m) =
    absurd (named (nothing-Matches value exact m))
list_loop_complete (suc rounds) value exact [] enough named (inr none_left) = absurd none_left
list_loop_complete (suc rounds) value exact (c ∷ s) enough named any =
    list_loop-step rounds value exact c s
    ∙ after_item_complete (list_loop rounds value exact) value exact (c ∷ s) (next_item (c ∷ s))
        (next_item-Next (c ∷ s)) named
        (λ t shorter found.
          list_loop_complete rounds value exact t (omega (arith, shorter, enough)) named found)
        any

-- Letters in either case are one.
abbrev pub lower : ℕ → ℕ
lower c = if leb b'A' c && leb c b'Z' then c + 32 else c

abbrev pub lowered : Bytes → Bytes
lowered [] = []
lowered (c ∷ s) = lower c ∷ lowered s

-- The texts are the same, or the same but for the case of letters.
abbrev pub SameText : Bool → Bytes → Bytes → Type 0
SameText true a b = a ≡ b
SameText false a b = lowered a ≡ lowered b

and_true : (a b : Bool) → (a && b) ≡ true → (a ≡ true) × (b ≡ true)
and_true a b h = (ground (arith, h), ground (arith, h))

cons_inj : (x y : ℕ) (a b : Bytes) → ◌≡◌ {A = Bytes} (x ∷ a) (y ∷ b) → (x ≡ y) × (a ≡ b)
cons_inj x y a b e = (cc, cc)

to_lower-lower : (c : ℕ) → to_lower c ≡ lower c
unfolding to_lower
to_lower-lower c = ground arith

strcase_eq-lowered : (a b : Bytes) → (strcase_eq a b ≡ true) ↔ (lowered a ≡ lowered b)
unfolding strcase_eq
strcase_eq-lowered [] [] = (λ h. refl, λ h. refl)
strcase_eq-lowered [] (y ∷ b) = (λ h. absurd cc, λ h. absurd cc)
strcase_eq-lowered (x ∷ a) [] = (λ h. absurd cc, λ h. absurd cc)
strcase_eq-lowered (x ∷ a) (y ∷ b) =
    let (to, from) = strcase_eq-lowered a b in
    (
      λ h.
          let (first, rest) = and_true (to_lower x == to_lower y) (strcase_eq a b) h in
          let same : lower x ≡ lower y =
            sym (to_lower-lower x)
            ∙ (==_iff (to_lower x) (to_lower y)).0 first
            ∙ to_lower-lower y in
          rw (same, to rest) refl,
      λ h.
          let (first, rest) = cons_inj _ _ (lowered a) (lowered b) h in
          let same : (to_lower x == to_lower y) ≡ true =
            (==_iff (to_lower x) (to_lower y)).1
              (to_lower-lower x ∙ first ∙ sym (to_lower-lower y)) in
          rw (same, from rest) refl,
    )

same_item-SameText :
    (exact : Bool) (a b : Bytes) → (same_item exact a b ≡ true) ↔ SameText exact a b
same_item-SameText true a b = str_eq_iff a b
same_item-SameText false a b = strcase_eq-lowered a b

AnyOf-map :
    {P Q : Bytes → Type 0} → ((x : Bytes) → P x → Q x) → (xs : List Bytes) → AnyOf P xs → AnyOf Q xs
AnyOf-map f [] any = any
AnyOf-map f (x ∷ xs) (inl p) = inl (f x p)
AnyOf-map f (x ∷ xs) (inr any) = inr (AnyOf-map f xs any)

-- `list_contains` says whether the value is not empty and one of the items between the list's commas is the
-- value, without the blanks around it: byte for byte where `exact` is set, and in any case of letters otherwise.
pub list_contains_iff :
    (list value : Bytes) (exact : Bool)
    → (list_contains list value exact ≡ true) ↔ (
        (value ≢ [])
        × AnyOf (λ item. SameText exact (trim_end (skip_blanks item)) value) (items list))
unfolding list_contains
list_contains_iff list value exact = (
  λ e.
      let (named, any) = list_loop_sound (suc (length list)) value exact list e in
      (
        named,
        AnyOf-map (λ item. (same_item-SameText exact (trim_end (skip_blanks item)) value).0)
            (items list) any,
      ),
  λ (named, any). list_loop_complete (suc (length list)) value exact list (omega arith) named (
      AnyOf-map (λ item. (same_item-SameText exact (trim_end (skip_blanks item)) value).1)
        (items list) any),
)
