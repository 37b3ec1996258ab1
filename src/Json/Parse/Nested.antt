-- ===== src/Json/Parse/Nested.antt =====
-- What `json_parse` of src/http/json.c answers.
use mathlib.Core.Path.{subst}
use gargantua.Common.{
  ℕ, zero, suc, ◌+◌, ◌≤◌, ◌<◌, Bool, true, false, ◌&&◌, ◌||◌, Option, none, some, List, [], ◌∷◌,
  Bytes, length, length-append, get_elem?, drop, ltb, ◌==◌, Bool-cases, some-ne-none, ◌≡◌, ◌≢◌, ◌⊎◌,
  inl, inr, refl, sym, ap, arith,
}
use gargantua.Json.{JsonToken}
use gargantua.Json.Parse.RoundMoves.{scan_round-Step}
use gargantua.Json.Parse.{
  Frame, Scan, Result, accepted, refused, exhausted, spaces_length, parse_answer, after_round,
  parse_at, parse_loop, int_max, empty_scan, json_parse,
}
use gargantua.Json.Parse.Moves.{open_tokens, Move, add, enter, leave, shift, Step}
use gargantua.Json.Parse.Ends.{drop-inside}
use gargantua.Json.Parse.Tokens.{
  Extent, Extent-later, Within, ParentOk, Inv, Inv-add, Inv-enter, length-set_end,
}
use gargantua.Json.Parse.Leave.{Inv-leave}

Inv-later :
    (len max i i' : ℕ) (toks : List JsonToken) (live : List ℕ)
    → i ≤ i'
    → Inv len max i toks live
    → Inv len max i' toks live
Inv-later len max i i' toks live h inv = record {
  few = inv.few;
  falls = inv.falls;
  open_listed = inv.open_listed;
  started = λ k t at. omega (arith, inv.started k t at, h);
  extents = λ k t at. Extent-later i i' live k t.start t.end h (inv.extents k t at);
  parents = inv.parents;
}

-- The invariant between two rounds.
record Good (js : Bytes) (max : ℕ) (seen : Bool) (st : Scan) : Type 0 where
  inv : Inv (length js) max st.i st.toks (open_tokens st.stack)
  inside : st.i ≤ length js
  unseen : seen ≡ false → length st.toks ≡ 0
  nonempty : seen ≡ true → 0 < length st.toks

live-lt :
    (len max i : ℕ) (toks : List JsonToken) (f : ℕ) (live : List ℕ)
    → Inv len max i toks (f ∷ live)
    → 0 < length toks
live-lt len max i toks f live inv = omega (arith, inv.falls.0)

length-eq-zero {ℓ} : {A : Type ℓ} (xs : List A) → (length xs == 0) ≡ true → xs ≡ []
length-eq-zero [] e = refl
length-eq-zero (x ∷ xs) e = absurd (ground (arith, e))

frame-lt :
    (len max i : ℕ) (toks : List JsonToken) (stack : List Frame)
    → Inv len max i toks (open_tokens stack)
    → 0 < length stack
    → 0 < length toks
frame-lt len max i toks [] inv h = absurd (omega (arith, h))
frame-lt len max i toks (f ∷ below) inv h = live-lt len max i toks f.token (open_tokens below) inv

abbrev After : ℕ → ℕ → Scan → Type 0
After len max st = Inv len max st.i st.toks (open_tokens st.stack) × (0 < length st.toks)

Move-After :
    (len max : ℕ) (st st' : Scan)
    → Inv len max st.i st.toks (open_tokens st.stack)
    → (st.stack ≡ [] → length st.toks ≡ 0)
    → st.i < st'.i
    → Move max st st'
    → After len max st'
Move-After len max st st' inv first forward (add t e a b c d f g room same opens) =
    let grown =
      Inv-add len max st.i st'.i st.toks st.stack forward inv t e first a b c d f g room in
    (
      subst (λ l. Inv len max st'.i st'.toks l) (sym opens)
          (subst (λ l. Inv len max st'.i l (open_tokens st.stack)) (sym same) grown),
      omega (arith, ap length same, length-append st.toks (t ∷ [])),
    )
Move-After len max st st' inv first forward (enter t a b c room same opens deep) =
    let grown = Inv-enter len max st.i st'.i st.toks st.stack forward inv t first a b c room in
    (
      subst (λ l. Inv len max st'.i st'.toks l) (sym opens)
          (subst (λ l. Inv len max st'.i l (length st.toks ∷ open_tokens st.stack)) (sym same)
            grown),
      omega (arith, ap length same, length-append st.toks (t ∷ [])),
    )
Move-After len max st st' inv first forward (leave f opens same) =
    let before = subst (λ l. Inv len max st.i st.toks l) opens inv in
    (
      subst (λ l. Inv len max st'.i l (open_tokens st'.stack)) (sym same)
          (Inv-leave len max st.i st'.i f (open_tokens st'.stack) st.toks forward before),
      omega (
        arith,
        ap length same,
        length-set_end st.toks f st'.i,
        live-lt len max st.i st.toks f (open_tokens st'.stack) before,
      ),
    )
Move-After len max st st' inv first forward (shift some_frame same opens) = (
  subst (λ l. Inv len max st'.i st'.toks l) (sym opens)
      (subst (λ l. Inv len max st'.i l (open_tokens st.stack)) (sym same)
        (Inv-later len max st.i st'.i st.toks (open_tokens st.stack) (omega (arith, forward)) inv)),
  omega (arith, ap length same, frame-lt len max st.i st.toks st.stack inv some_frame),
)

-- A token lies in the text, and in its parent's extent; only the first token has no parent.
abbrev pub InParent : List JsonToken → ℕ → ℕ → ℕ → Option ℕ → Type 0
InParent toks k start end none = k ≡ 0
InParent toks k start end (some p) =
    (p < k)
    × (u : JsonToken) × (e : ℕ) × (get_elem? toks p ≡ some u)
    × (u.end ≡ some e)
    × (u.start < start)
    × (end ≤ e)

pub record WellNested (len max : ℕ) (toks : List JsonToken) : Type 0 where
  pub nonempty : 0 < length toks
  pub few : length toks ≤ max
  pub extents :
      (k : ℕ) (t : JsonToken)
      → get_elem? toks k ≡ some t
      → (e : ℕ) × (t.end ≡ some e) × (t.start ≤ e) × (e ≤ len) × InParent toks k t.start e t.parent

abbrev pub Answer : Bytes → ℕ → Result → Type 0
Answer js max (accepted toks) = WellNested (length js) max toks
Answer js max refused = Unit
Answer js max exhausted = Unit

-- With nothing open, every token is closed.
Extent-closed :
    (i k start : ℕ) (o : Option ℕ)
    → Extent i [] k start o
    → (e : ℕ) × (o ≡ some e) × (start ≤ e) × (e ≤ i)
Extent-closed i k start none h = absurd h
Extent-closed i k start (some e) (order, inside, out) = (e, refl, order, inside)

ParentOk-InParent :
    (len max i : ℕ) (toks : List JsonToken) (k : ℕ) (t : JsonToken) (e : ℕ) (p : Option ℕ)
    → Inv len max i toks []
    → t.end ≡ some e
    → ParentOk toks k t p
    → InParent toks k t.start e p
ParentOk-InParent len max i toks k t e none inv closed h = h
ParentOk-InParent len max i toks k t e (some p) inv closed (u, at, lt, start, within) =
    let (e', closed', order, inside) = Extent-closed i p u.start u.end (inv.extents p u at) in
    let ends : Within (some e) (some e') =
      subst (λ o. Within o (some e')) closed (subst (Within t.end) closed' within) in
    (lt, u, e', at, closed', start, ends)

token_closed :
    (len max i : ℕ) (toks : List JsonToken) (k : ℕ) (t : JsonToken)
    → Inv len max i toks []
    → i ≤ len
    → get_elem? toks k ≡ some t
    → (e : ℕ) × (t.end ≡ some e) × (t.start ≤ e) × (e ≤ len) × InParent toks k t.start e t.parent
token_closed len max i toks k t inv inside at =
    let (e, closed, order, before) = Extent-closed i k t.start t.end (inv.extents k t at) in
    (
      e,
      closed,
      order,
      omega (arith, before, inside),
      ParentOk-InParent len max i toks k t e t.parent inv closed (inv.parents k t at),
    )

module _ (js : Bytes) (max : ℕ) where
  -- A round starts behind the blanks, at `at`.
  Step-Good :
      (seen : Bool) (st st' : Scan) (at : ℕ)
      → Good js max seen st
      → st.i ≤ at
      → Step js max (record st { i = at }) st'
      → (seen ≡ false) ⊎ (st.stack ≢ [])
      → Good js max true st'
  Step-Good seen st st' at good later step first =
      let (inv, some_token) =
        Move-After (length js) max (record st { i = at }) st'
          (Inv-later (length js) max st.i at st.toks (open_tokens st.stack) later good.inv)
          (λ empty. elim first [ inl new ↦ good.unseen new | inr frames ↦ absurd (frames empty) ])
          step.forward step.move in
      record {
        inv = inv;
        inside = step.inside;
        unseen = λ e. absurd (ground (arith, e));
        nonempty = λ e. some_token;
      }

  Good-tokens :
      (seen : Bool) (st : Scan)
      → Good js max seen st
      → seen ≡ true
      → st.stack ≡ []
      → WellNested (length js) max st.toks
  Good-tokens seen st good started empty =
      let inv =
        subst (λ stack. Inv (length js) max st.i st.toks (open_tokens stack)) empty good.inv in
      record {
        nonempty = good.nonempty started;
        few = inv.few;
        extents = λ k t at. token_closed (length js) max st.i st.toks k t inv good.inside at;
      }

  parse_answer-Answer :
      (seen : Bool) (st : Scan) → Good js max seen st → Answer js max (parse_answer seen st)
  unfolding parse_answer
  parse_answer-Answer seen st good = elim (Bool-cases (seen && st.done && length st.stack == 0)) [
    | inl fine ↦ rw fine (
        Good-tokens seen st good (ground (arith, fine))
          (length-eq-zero st.stack (ground (arith, fine))))
    | inr bad ↦ rw bad tt
  ]

  after_round-Answer :
      (next : Scan → Result) (o : Option Scan)
      → ((st : Scan) → o ≡ some st → Answer js max (next st))
      → Answer js max (after_round next o)
  unfolding after_round
  after_round-Answer next none h = tt
  after_round-Answer next (some st) h = h st refl

  parse_at-Answer :
      (next : Scan → Result) (seen : Bool) (st : Scan) (at : ℕ) (s : Bytes)
      → ((st' : Scan) → Good js max true st' → Answer js max (next st'))
      → Good js max seen st
      → st.i ≤ at
      → drop at js ≡ s
      → Answer js max (parse_at next js max seen st at s)
  unfolding parse_at
  parse_at-Answer next seen st at [] ih good later e = parse_answer-Answer seen st good
  parse_at-Answer next seen st at (c ∷ s) ih good later e = after_round-Answer next _ (λ st' made.
      let (step, first) =
        scan_round-Step js max seen c st.stack (record st { i = at }) st' refl
          (drop-inside js at c s e) made in
      ih st' (Step-Good seen st st' at good later step first))

  parse_loop-Answer :
      (rounds : ℕ) (seen : Bool) (st : Scan)
      → Good js max seen st
      → Answer js max (parse_loop rounds js max seen st)
  unfolding parse_loop
  parse_loop-Answer zero seen st good = tt
  parse_loop-Answer (suc rounds) seen st good =
      let at = st.i + spaces_length (drop st.i js) in
      parse_at-Answer (parse_loop rounds js max true) seen st at (drop at js)
        (λ st' better. parse_loop-Answer rounds true st' better) good (omega arith) refl

  empty_scan-Good : Good js max false empty_scan
  empty_scan-Good = record {
    inv = record {
      few = omega arith;
      falls = tt;
      open_listed = λ k m. absurd m;
      started = λ k t at. absurd (some-ne-none (sym at));
      extents = λ k t at. absurd (some-ne-none (sym at));
      parents = λ k t at. absurd (some-ne-none (sym at));
    };
    inside = omega arith;
    unseen = λ e. refl;
    nonempty = λ e. absurd (ground (arith, e));
  }

-- The tokens that `json_parse` leaves for a text are at least one and at most `max`. Each of them is closed,
-- ends where it starts or later and inside the text, and lies in its parent's extent, the parent standing in
-- front of it and starting earlier; only the first token has no parent.
pub json_parse-WellNested :
    (js : Bytes) (max : ℕ) (toks : List JsonToken)
    → json_parse js max ≡ accepted toks
    → WellNested (length js) max toks
unfolding json_parse
json_parse-WellNested js max toks e =
    let answer : Answer js max (json_parse js max) =
      elim (Bool-cases (max == 0 || length js == 0 || ltb int_max (length js))) [
        | inl bad ↦ rw bad tt
        | inr fine ↦
            rw fine
              (parse_loop-Answer js max (suc (length js)) false empty_scan (empty_scan-Good js max))
      ] in
    subst (Answer js max) e answer
