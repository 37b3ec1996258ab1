-- ===== src/Json/Parse/Rounds.antt =====
-- A round of `json_parse` in src/http/json.c, read backwards: it puts the bytes that it takes in front of what
-- completes the open containers.
use mathlib.Core.Path.{subst}
use gargantua.Common.{
  ℕ, ◌+◌, true, false, not, some, List, ◌∷◌, Bytes, length, get_elem?, drop, ◌==◌, guard, ◌>>=◌,
  ◌>>◌, >>=-eq-some, guard-eq-some, some_inj, some-ne-none, Bool-cases, ==_iff, ◌≡◌, ◌⊎◌, sym, ap,
  ◌∙◌, arith, inl, inr,
}
use gargantua.Json.Grammar.{Blanks, none_left, Elements, Members}
use gargantua.Json.Lexical.{drop_further}
use gargantua.Json.Parse.{
  FrameState, obj_key_or_end, obj_key, obj_colon, obj_value, obj_next, arr_value_or_end, arr_value,
  arr_next, Frame, Scan, token_string, close_container, key_fits, is_obj_key, is_arr_value,
  scan_object_key, scan_array_element, scan_separator, scan_state,
}
use gargantua.Json.Parse.Completes.{
  Rest, Completes, more_in_object, more_in_array, token_string-Text, scan_value-Value,
}

-- The top frame is closed, and the bytes behind it complete those below.
close_container-Completes :
    (js : Bytes) (f : Frame) (below : List Frame) (st st' : Scan) (c closer : ℕ) (s : Bytes)
    → drop st.i js ≡ c ∷ s
    → (c == closer) ≡ true
    → some (close_container f below st) ≡ some st'
    → Completes st'.stack (drop st'.i js)
    → Blanks (c ∷ s) (closer ∷ s) × Completes below s
unfolding close_container
close_container-Completes js f below st st' c closer s here q e rest = (
  rw ((==_iff c closer).0 q) (none_left (closer ∷ s)),
  subst (λ k. Completes below k) (drop_further st.i 1 js (c ∷ s) here)
      (subst (λ v. Completes v.stack (drop v.i js)) (sym (some_inj e)) rest),
)

scan_object_key-Rest :
    (js : Bytes) (max : ℕ) (f : Frame) (below : List Frame) (st st' : Scan) (c : ℕ) (s : Bytes)
    → drop st.i js ≡ c ∷ s
    → scan_object_key js max c f below st ≡ some st'
    → Completes st'.stack (drop st'.i js)
    → (r : Bytes) × ((Blanks (c ∷ s) (b'}' ∷ r) × (is_obj_key f.state ≡ false))
        ⊎ Members (c ∷ s) (b'}' ∷ r))
      × Completes below r
unfolding scan_object_key
scan_object_key-Rest js max f below st st' c s here e rest = elim (Bool-cases (c == b'}')) [
  | inl q ↦
      let (may_end, e1) =
        guard-eq-some (not (is_obj_key f.state)) (some (close_container f below st))
          (simp q at e) in
      let (b, done) = close_container-Completes js f below st st' c b'}' s here q e1 rest in
      (s, inl (b, ground (arith, may_end)), done)
  | inr nq ↦
      let (quote, e1) =
        guard-eq-some (c == b'"')
          (do
            v ← token_string js max (some f.token) st
            guard (key_fits js st.toks f (get_elem? v.toks (length st.toks)))
            some (record v {
              stack = record f { members = f.members + 1; state = obj_colon } ∷ below;
            }))
          (simp nq at e) in
      let (v, ev, e2) =
        >>=-eq-some (token_string js max (some f.token) st)
          (λ v. do
            guard (key_fits js st.toks f (get_elem? v.toks (length st.toks)))
            some (record v {
              stack = record f { members = f.members + 1; state = obj_colon } ∷ below;
            }))
          e1 in
      let (fits, e3) =
        guard-eq-some (key_fits js st.toks f (get_elem? v.toks (length st.toks)))
          (some
            (record v { stack = record f { members = f.members + 1; state = obj_colon } ∷ below }))
          e2 in
      let c_is : c ≡ b'"' = (==_iff c b'"').0 quote in
      let (x, same) = token_string-Text js max (some f.token) st v s (rw c_is at here) ev in
      let (r, key, done) = subst (λ v. Completes v.stack (drop v.i js)) (sym (some_inj e3)) rest in
      let all_in = more_in_object (b'"' ∷ s) s (drop v.i js) r (none_left (b'"' ∷ s)) x key in
      (r, inr (subst (λ k. Members (k ∷ s) (b'}' ∷ r)) (sym c_is) all_in), done)
]

scan_array_element-Rest :
    (js : Bytes) (max : ℕ) (f : Frame) (below : List Frame) (st st' : Scan) (c : ℕ) (s : Bytes)
    → drop st.i js ≡ c ∷ s
    → scan_array_element js max c f below st ≡ some st'
    → Completes st'.stack (drop st'.i js)
    → (r : Bytes) × ((Blanks (c ∷ s) (b']' ∷ r) × (is_arr_value f.state ≡ false))
        ⊎ Elements (c ∷ s) (b']' ∷ r))
      × Completes below r
unfolding scan_array_element
scan_array_element-Rest js max f below st st' c s here e rest = elim (Bool-cases (c == b']')) [
  | inl q ↦
      let (may_end, e1) =
        guard-eq-some (not (is_arr_value f.state)) (some (close_container f below st))
          (simp q at e) in
      let (b, done) = close_container-Completes js f below st st' c b']' s here q e1 rest in
      (s, inl (b, ground (arith, may_end)), done)
  | inr nq ↦
      let pushed : Scan = record st { stack = record f { state = arr_next } ∷ below } in
      let (u, val, (r, after, done)) =
        scan_value-Value js max (some f.token) pushed st' c s here (simp nq at e) rest in
      (r, inr (more_in_array (c ∷ s) (c ∷ s) u r (none_left (c ∷ s)) val after), done)
]

scan_separator-Rest :
    (js : Bytes) (f : Frame) (below : List Frame) (st st' : Scan) (c closer : ℕ) (next : FrameState)
    (s : Bytes)
    → drop st.i js ≡ c ∷ s
    → scan_separator c f below st closer next ≡ some st'
    → Completes st'.stack (drop st'.i js)
    → (r : Bytes) × (Blanks (c ∷ s) (closer ∷ r) ⊎ (Blanks (c ∷ s) (b',' ∷ s) × Rest next s r))
      × Completes below r
unfolding scan_separator
scan_separator-Rest js f below st st' c closer next s here e rest = elim (Bool-cases (c == b',')) [
  | inl q ↦
      let moved : record st { i = st.i + 1; stack = record f { state = next } ∷ below } ≡ st' =
        some_inj (simp q at e) in
      let (r, more, done) = subst (λ v. Completes v.stack (drop v.i js)) (sym moved) rest in
      (
        r,
        inr (
          subst (λ k. Blanks (k ∷ s) (b',' ∷ s)) (sym ((==_iff c b',').0 q)) (none_left (b',' ∷ s)),
          subst (λ k. Rest next k r) (drop_further st.i 1 js (c ∷ s) here) more,
        ),
        done,
      )
  | inr nq ↦ elim (Bool-cases (c == closer)) [
    | inl q ↦
        let (b, done) =
          close_container-Completes js f below st st' c closer s here q (simp (nq, q) at e) rest in
        (s, inl b, done)
    | inr other ↦ absurd (some-ne-none (sym (simp (nq, other) at e)))
  ]
]

-- A round in a container.
pub scan_state-Completes :
    (js : Bytes) (max : ℕ) (f : Frame) (below : List Frame) (st st' : Scan) (c : ℕ) (s : Bytes)
    (state : FrameState)
    → f.state ≡ state
    → drop st.i js ≡ c ∷ s
    → scan_state js max c f below st state ≡ some st'
    → Completes st'.stack (drop st'.i js)
    → (r : Bytes) × Rest state (c ∷ s) r × Completes below r
unfolding scan_state
scan_state-Completes js max f below st st' c s obj_key_or_end is here e rest =
    let (r, found, done) = scan_object_key-Rest js max f below st st' c s here e rest in
    (r, elim found [ inl (b, n) ↦ inl b | inr m ↦ inr m ], done)
scan_state-Completes js max f below st st' c s obj_key is here e rest =
    let (r, found, done) = scan_object_key-Rest js max f below st st' c s here e rest in
    (
      r,
      elim found [
        | inl (b, n) ↦ let n' : true ≡ false = ap is_obj_key (sym is) ∙ n in absurd cc
        | inr m ↦ m
      ],
      done,
    )
scan_state-Completes js max f below st st' c s obj_colon is here e rest =
    let (q, e1) =
      guard-eq-some (c == b':')
        (some (record st { i = st.i + 1; stack = record f { state = obj_value } ∷ below })) e in
    let (r, more, done) = subst (λ v. Completes v.stack (drop v.i js)) (sym (some_inj e1)) rest in
    (
      r,
      (
        s,
        subst (λ k. Blanks (k ∷ s) (b':' ∷ s)) (sym ((==_iff c b':').0 q)) (none_left (b':' ∷ s)),
        subst (λ k. Rest obj_value k r) (drop_further st.i 1 js (c ∷ s) here) more,
      ),
      done,
    )
scan_state-Completes js max f below st st' c s obj_value is here e rest =
    let pushed : Scan = record st { stack = record f { state = obj_next } ∷ below } in
    let (u, val, (r, after, done)) =
      scan_value-Value js max (some f.token) pushed st' c s here e rest in
    (r, (c ∷ s, u, none_left (c ∷ s), val, after), done)
scan_state-Completes js max f below st st' c s obj_next is here e rest =
    let (r, found, done) = scan_separator-Rest js f below st st' c b'}' obj_key s here e rest in
    (r, elim found [ inl b ↦ inl b | inr (b, m) ↦ inr (s, b, m) ], done)
scan_state-Completes js max f below st st' c s arr_value_or_end is here e rest =
    let (r, found, done) = scan_array_element-Rest js max f below st st' c s here e rest in
    (r, elim found [ inl (b, n) ↦ inl b | inr m ↦ inr m ], done)
scan_state-Completes js max f below st st' c s arr_value is here e rest =
    let (r, found, done) = scan_array_element-Rest js max f below st st' c s here e rest in
    (
      r,
      elim found [
        | inl (b, n) ↦ let n' : true ≡ false = ap is_arr_value (sym is) ∙ n in absurd cc
        | inr m ↦ m
      ],
      done,
    )
scan_state-Completes js max f below st st' c s arr_next is here e rest =
    let (r, found, done) = scan_separator-Rest js f below st st' c b']' arr_value s here e rest in
    (r, elim found [ inl b ↦ inl b | inr (b, m) ↦ inr (s, b, m) ], done)
