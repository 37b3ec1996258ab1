-- ===== src/Json/Parse/Leave.antt =====
-- A container that is closed: the last case of the invariant of `json_parse` in src/http/json.c.
use mathlib.Core.Path.{subst}
use gargantua.Common.{
  ℕ, ◌≤◌, ◌<◌, Option, none, some, List, ◌∷◌, get_elem?, some_inj, ◌≡◌, ◌≢◌, inl, inr, refl, sym,
  ap, ◌∙◌, arith,
}
use gargantua.Json.{JsonToken}
use gargantua.Json.Parse.{set_end}
use gargantua.Json.Parse.Tokens.{
  In, Falls-In, Falls-weaken, Within, ParentOk, Extent, Extent-leave, Inv, set_end-cases,
  set_end-at, length-set_end,
}

Within-closed :
    (e i' : ℕ) (i : ℕ) (live : List ℕ) (k start : ℕ) (o : Option ℕ)
    → i ≤ i'
    → Extent i live k start o
    → (In k live → ⊥)
    → Within o (some i')
Within-closed e i' i live k start none h x out = out x
Within-closed e i' i live k start (some n) h (a, b, c) out = omega (arith, b, h)

-- The closed parent of an open token is none.
Within-unclosed : (o : Option ℕ) (n : Option ℕ) → Within none o → Within n o
Within-unclosed none n h = tt
Within-unclosed (some e) n h = absurd h

module _ (len max i i' f : ℕ) (live : List ℕ) (toks : List JsonToken) (forward : i < i')
    (inv : Inv len max i toks (f ∷ live)) where
  not_live : In f live → ⊥
  not_live m = omega (arith, Falls-In f f live inv.falls.1 m)

  -- A token other than the one that is closed.
  ParentOk-other :
      (k : ℕ) (t : JsonToken) (p : Option ℕ)
      → k ≢ f
      → get_elem? toks k ≡ some t
      → ParentOk toks k t p
      → ParentOk (set_end toks f i') k t p
  ParentOk-other k t none other at h = h
  ParentOk-other k t (some p) other at (u, atp, lt, start, within) =
      let (y, aty, same_start, which) = set_end-at toks f i' p u atp in
      (
        y,
        aty,
        lt,
        omega (arith, start, same_start),
        elim which [
          | inl (differ, same) ↦ subst (Within t.end) (sym same) within
          | inr (same, closed) ↦ subst (Within t.end) (sym closed) (
              Within-closed 0 i' i (f ∷ live) k t.start t.end (omega (arith, forward))
                (inv.extents k t at)
                (λ m. elim m [
                  | inl e ↦ other e
                  | inr m' ↦ omega (arith, Falls-In f k live inv.falls.1 m', lt, same)
                ]))
        ],
      )

  ParentOk-self :
      (y : JsonToken) (p : Option ℕ)
      → y.end ≡ none
      → ParentOk toks f y p
      → ParentOk (set_end toks f i') f (record y { end = some i' }) p
  ParentOk-self y none unclosed h = h
  ParentOk-self y (some p) unclosed (u, atp, lt, start, within) =
      let (v, atv, same_start, which) = set_end-at toks f i' p u atp in
      (
        v,
        atv,
        lt,
        omega (arith, start, same_start),
        elim which [
          | inl (differ, same) ↦
              subst (Within (some i')) (sym same)
                (Within-unclosed u.end (some i') (subst (λ o. Within o u.end) unclosed within))
          | inr (same, closed) ↦ absurd (omega (arith, same, lt))
        ],
      )

  -- What stood at `f` was open.
  was_open : (y : JsonToken) → get_elem? toks f ≡ some y → y.end ≡ none
  was_open y at =
      let (u, atu, unclosed) = inv.open_listed f (inl refl) in
      let same : u ≡ y = some_inj (sym atu ∙ at) in ap (λ t. t.end) (sym same) ∙ unclosed

  pub Inv-leave : Inv len max i' (set_end toks f i') live
  Inv-leave = record {
    few = omega (arith, length-set_end toks f i', inv.few);
    falls =
        Falls-weaken f _ live (omega (arith, length-set_end toks f i', inv.falls.0)) inv.falls.1;
    open_listed = λ k m.
        let (u, at, unclosed) = inv.open_listed k (inr m) in
        let (y, aty, start, which) = set_end-at toks f i' k u at in
        (
          y,
          aty,
          elim which [
            | inl (other, same) ↦ same ∙ unclosed
            | inr (same, closed) ↦ absurd (not_live (subst (λ j. In j live) same m))
          ],
        );
    started = λ k t h. elim (set_end-cases toks f i' k t h) [
      | inl (other, old) ↦ omega (arith, inv.started k t old, forward)
      | inr (at, y, old, same) ↦ omega (arith, inv.started k y old, forward, ap (λ t. t.start) same)
    ];
    extents = λ k t h. elim (set_end-cases toks f i' k t h) [
      | inl (other, old) ↦
          Extent-leave i i' f live k t.start t.end (omega (arith, forward)) other
            (inv.extents k t old)
      | inr (at, y, old, same) ↦ rw same (
        omega (arith, inv.started k y old, forward),
        omega arith,
        λ m. not_live (subst (λ j. In j live) at m),
      )
    ];
    parents = λ k t h. elim (set_end-cases toks f i' k t h) [
      | inl (other, old) ↦ ParentOk-other k t t.parent other old (inv.parents k t old)
      | inr (at, y, old, same) ↦
          let here : get_elem? toks f ≡ some y = subst (λ j. get_elem? toks j ≡ some y) at old in
          rw (at, same) (ParentOk-self y y.parent (was_open y here) (inv.parents f y here))
    ];
  }
