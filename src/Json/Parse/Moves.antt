-- ===== src/Json/Parse/Moves.antt =====
-- What a round of `json_parse` does to the tokens and the stack, in four kinds.
use mathlib.Core.Path.{subst}
use gargantua.Common.{
  ℕ, suc, ◌+◌, ◌≤◌, ◌<◌, not, Option, none, some, List, [], ◌∷◌, ◌++◌, Bytes, length, drop,
  length-drop, leb, ◌==◌, ◌>>=◌, >>=-eq-some, guard-eq-some, some_inj, some-ne-none, Bool-cases,
  ◌≡◌, inl, inr, refl, sym, ap, ◌∙◌, arith, lt_of_leb-false,
}
use gargantua.Json.{
  JsonType, obj, arr, str, prim, JsonToken, max_depth, string_length, primitive_length,
}
use gargantua.Json.Lengths.{string_length-lt, primitive_length-bounds}
use gargantua.Json.Parse.{
  FrameState, obj_key_or_end, arr_value_or_end, Frame, Scan, token_alloc, set_end, token_string,
  token_primitive, open_container, scan_value_at, scan_value,
}

abbrev pub open_tokens : List Frame → List ℕ
open_tokens [] = []
open_tokens (f ∷ fs) = f.token ∷ open_tokens fs

abbrev pub parent_of : List Frame → Option ℕ
parent_of [] = none
parent_of (f ∷ fs) = some f.token

-- A closed token is added, or a container's token with a frame; a container is closed; or a byte
-- between tokens is passed.
pub data Move (max : ℕ) (st st' : Scan) : Type 0 where
  add :
      (t : JsonToken) (e : ℕ)
      → t.end ≡ some e
      → t.parent ≡ parent_of st.stack
      → st.i ≤ t.start
      → t.start ≤ e
      → t.start < st'.i
      → e ≤ st'.i
      → length st.toks < max
      → st'.toks ≡ st.toks ++ (t ∷ [])
      → open_tokens st'.stack ≡ open_tokens st.stack
      → Move max st st'
  enter :
      (t : JsonToken)
      → t.end ≡ none
      → t.parent ≡ parent_of st.stack
      → t.start ≡ st.i
      → length st.toks < max
      → st'.toks ≡ st.toks ++ (t ∷ [])
      → open_tokens st'.stack ≡ length st.toks ∷ open_tokens st.stack
      → length st.stack < max_depth
      → Move max st st'
  leave :
      (f : ℕ)
      → open_tokens st.stack ≡ f ∷ open_tokens st'.stack
      → st'.toks ≡ set_end st.toks f st'.i
      → Move max st st'
  shift :
      0 < length st.stack
      → st'.toks ≡ st.toks
      → open_tokens st'.stack ≡ open_tokens st.stack
      → Move max st st'

pub record Step (js : Bytes) (max : ℕ) (st st' : Scan) : Type 0 where
  pub move : Move max st st'
  pub forward : st.i < st'.i
  pub inside : st'.i ≤ length js

token_alloc-eq-some :
    (toks toks' : List JsonToken) (max : ℕ) (type : JsonType) (start : ℕ) (parent : Option ℕ)
    → token_alloc toks max type start parent ≡ some toks'
    → (length toks < max)
      × (toks' ≡ toks ++ (record { type = type; start = start; end = none; parent = parent } ∷ []))
unfolding token_alloc
token_alloc-eq-some toks toks' max type start parent e = elim (Bool-cases (leb max (length toks))) [
  | inl full ↦
      let gone : token_alloc toks max type start parent ≡ none = rw full refl in
      absurd (some-ne-none (sym e ∙ gone))
  | inr room ↦
      let made : token_alloc toks max type start parent
          ≡ some
              (toks ++ (record { type = type; start = start; end = none; parent = parent } ∷ [])) =
        rw room refl in
      (lt_of_leb-false _ _ room, some_inj (sym e ∙ made))
]

pub set_end-snoc :
    (toks : List JsonToken) (t : JsonToken) (e : ℕ)
    → set_end (toks ++ (t ∷ [])) (length toks) e ≡ toks ++ (record t { end = some e } ∷ [])
unfolding set_end
set_end-snoc [] t e = refl
set_end-snoc (x ∷ toks) t e = ap (◌∷◌ x) (set_end-snoc toks t e)

pub token_string-Step :
    (js : Bytes) (max : ℕ) (st st' : Scan)
    → token_string js max (parent_of st.stack) st ≡ some st'
    → Step js max st st' × (st'.stack ≡ st.stack)
unfolding token_string
token_string-Step js max st st' e =
    let parent = parent_of st.stack in
    let (toks, et, e1) =
      >>=-eq-some (token_alloc st.toks max str (st.i + 1) parent)
        (λ toks. do
          n ← string_length (suc (length js)) (drop (st.i + 1) js)
          some (record st {
            i = st.i + 1 + n + 1;
            toks = set_end toks (length st.toks) (st.i + 1 + n);
          }))
        e in
    let (n, en, e2) =
      >>=-eq-some (string_length (suc (length js)) (drop (st.i + 1) js))
        (λ n.
          some (record st {
            i = st.i + 1 + n + 1;
            toks = set_end toks (length st.toks) (st.i + 1 + n);
          }))
        e1 in
    let (room, same) = token_alloc-eq-some st.toks toks max str (st.i + 1) parent et in
    let lt = string_length-lt (suc (length js)) (drop (st.i + 1) js) n en in
    let after = some_inj e2 in
    subst (λ s. Step js max st s × (s.stack ≡ st.stack)) after
      (
        record {
          move =
              add
                (record {
                  type = str;
                  start = st.i + 1;
                  end = some (st.i + 1 + n);
                  parent = parent;
                })
                (st.i + 1 + n) refl refl (omega arith) (omega arith) (omega arith) (omega arith)
                room
                (ap (λ l. set_end l (length st.toks) (st.i + 1 + n)) same
                  ∙ set_end-snoc st.toks
                      (record { type = str; start = st.i + 1; end = none; parent = parent })
                      (st.i + 1 + n))
                refl;
          forward = omega arith;
          inside = omega (arith, lt, length-drop (st.i + 1) js);
        },
        refl,
      )

token_primitive-Step :
    (js : Bytes) (max : ℕ) (st st' : Scan)
    → token_primitive js max (parent_of st.stack) st ≡ some st'
    → Step js max st st'
unfolding token_primitive
token_primitive-Step js max st st' e =
    let parent = parent_of st.stack in
    let (n, en, e1) =
      >>=-eq-some (primitive_length (drop st.i js))
        (λ n. do
          toks ← token_alloc st.toks max prim st.i parent
          some (record st { i = st.i + n; toks = set_end toks (length st.toks) (st.i + n) }))
        e in
    let (toks, et, e2) =
      >>=-eq-some (token_alloc st.toks max prim st.i parent)
        (λ toks. some (record st { i = st.i + n; toks = set_end toks (length st.toks) (st.i + n) }))
        e1 in
    let (room, same) = token_alloc-eq-some st.toks toks max prim st.i parent et in
    let bounds = primitive_length-bounds (drop st.i js) n en in
    subst (Step js max st) (some_inj e2) (record {
      move =
          add (record { type = prim; start = st.i; end = some (st.i + n); parent = parent })
            (st.i + n) refl refl (omega arith) (omega arith) (omega (arith, bounds.0)) (omega arith)
            room
            (ap (λ l. set_end l (length st.toks) (st.i + n)) same
              ∙ set_end-snoc st.toks
                  (record { type = prim; start = st.i; end = none; parent = parent }) (st.i + n))
            refl;
      forward = omega (arith, bounds.0);
      inside = omega (arith, bounds.0, bounds.1, length-drop st.i js);
    })

open_container-Step :
    (js : Bytes) (max : ℕ) (type : JsonType) (state : FrameState) (st st' : Scan)
    → st.i < length js
    → open_container max (parent_of st.stack) type state st ≡ some st'
    → Step js max st st'
unfolding open_container
open_container-Step js max type state st st' here e =
    let parent = parent_of st.stack in
    let (deep, e1) =
      guard-eq-some (not (leb max_depth (length st.stack)))
        (do toks ← token_alloc st.toks max type st.i parent; some (opened toks)) e in
    let (toks, et, e2) =
      >>=-eq-some (token_alloc st.toks max type st.i parent) (λ toks. some (opened toks)) e1 in
    let (room, same) = token_alloc-eq-some st.toks toks max type st.i parent et in
    subst (Step js max st) (some_inj e2) (record {
      move =
          enter (record { type = type; start = st.i; end = none; parent = parent }) refl refl refl
            room same refl (ground (arith, deep));
      forward = omega arith;
      inside = omega (arith, here);
    })
  where
    opened : List JsonToken → Scan
    opened toks = record st {
      i = st.i + 1;
      toks = toks;
      stack = record { token = length st.toks; type = type; state = state; members = 0 } ∷ st.stack;
    }

scan_value_at-Step :
    (js : Bytes) (max : ℕ) (st st' : Scan) (s : Bytes)
    → st.i < length js
    → scan_value_at js max (parent_of st.stack) st s ≡ some st'
    → Step js max st st'
unfolding scan_value_at
scan_value_at-Step js max st st' [] here e = absurd (some-ne-none (sym e))
scan_value_at-Step js max st st' (c ∷ s) here e = elim (Bool-cases (c == b'"')) [
  | inl quote ↦ (token_string-Step js max st st' (rw quote at e)).0
  | inr other ↦ elim (Bool-cases (c == b'{')) [
    | inl brace ↦ open_container-Step js max obj obj_key_or_end st st' here (rw (other, brace) at e)
    | inr more ↦ elim (Bool-cases (c == b'[')) [
      | inl bracket ↦
          open_container-Step js max arr arr_value_or_end st st' here
            (rw (other, more, bracket) at e)
      | inr plain ↦ token_primitive-Step js max st st' (rw (other, more, plain) at e)
    ]
  ]
]

pub scan_value-Step :
    (js : Bytes) (max : ℕ) (parent : Option ℕ) (st st' : Scan)
    → parent ≡ parent_of st.stack
    → st.i < length js
    → scan_value js max parent st ≡ some st'
    → Step js max st st'
unfolding scan_value
scan_value-Step js max parent st st' same here e =
    scan_value_at-Step js max st st' (drop st.i js) here
      (subst (λ p. scan_value_at js max p st (drop st.i js) ≡ some st') same e)
