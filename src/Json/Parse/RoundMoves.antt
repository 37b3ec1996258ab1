-- ===== src/Json/Parse/RoundMoves.antt =====
-- A round of `json_parse` in src/http/json.c is one of the moves.
use mathlib.Core.Path.{subst}
use gargantua.Common.{
  ℕ, ◌+◌, ◌<◌, Bool, false, not, ◌||◌, none, some, List, [], ◌∷◌, Bytes, length, get_elem?, ◌==◌,
  ◌>>=◌, ◌>>◌, guard, >>=-eq-some, guard-eq-some, some_inj, some-ne-none, Bool-cases, ◌≡◌, ◌≢◌, ◌⊎◌,
  inl, inr, refl, sym, ap, ◌∙◌, arith,
}
use gargantua.Json.Parse.{
  FrameState, obj_key_or_end, obj_key, obj_colon, obj_value, obj_next, arr_value_or_end, arr_value,
  arr_next, Frame, Scan, token_string, scan_value, close_container, key_fits, is_obj_key,
  is_arr_value, scan_object_key, scan_array_element, scan_separator, scan_state, scan_frame,
  finish_value, scan_root, scan_round,
}
use gargantua.Json.Parse.Moves.{
  open_tokens, parent_of, Move, add, enter, leave, shift, Step, token_string-Step, scan_value-Step,
}

-- The state of the top frame is of no account.
Move-before :
    (max : ℕ) (st st' : Scan) (stack : List Frame)
    → open_tokens st.stack ≡ open_tokens stack
    → parent_of st.stack ≡ parent_of stack
    → length st.stack ≡ length stack
    → Move max (record st { stack = stack }) st'
    → Move max st st'
Move-before max st st' stack o p l (add t e a b c d f g room same opens) =
    add t e a (b ∙ sym p) c d f g room same (opens ∙ sym o)
Move-before max st st' stack o p l (enter t a b c room same opens deep) =
    enter t a (b ∙ sym p) c room same (opens ∙ ap (◌∷◌ (length st.toks)) (sym o))
      (omega (arith, l, deep))
Move-before max st st' stack o p l (leave f opens same) = leave f (o ∙ opens) same
Move-before max st st' stack o p l (shift some_frame same opens) =
    shift (omega (arith, l, some_frame)) same (opens ∙ sym o)

Move-after :
    (max : ℕ) (st st' : Scan) (stack : List Frame)
    → open_tokens stack ≡ open_tokens st'.stack
    → Move max st st'
    → Move max st (record st' { stack = stack })
Move-after max st st' stack o (add t e a b c d f g room same opens) =
    add t e a b c d f g room same (o ∙ opens)
Move-after max st st' stack o (enter t a b c room same opens deep) =
    enter t a b c room same (o ∙ opens) deep
Move-after max st st' stack o (leave f opens same) = leave f (opens ∙ ap (◌∷◌ f) (sym o)) same
Move-after max st st' stack o (shift some_frame same opens) = shift some_frame same (o ∙ opens)

-- The frame `f` on top, in front of the byte at `st.i`.
module _ (js : Bytes) (max : ℕ) (f : Frame) (below : List Frame) (st st' : Scan)
    (top : st.stack ≡ f ∷ below) (here : st.i < length js) where
  close_container-Step : close_container f below st ≡ st' → Step js max st st'
  unfolding close_container
  close_container-Step e = subst (Step js max st) e (record {
    move = leave f.token (ap open_tokens top) refl;
    forward = omega arith;
    inside = omega (arith, here);
  })

  frame_value-Step :
      (state : FrameState)
      → scan_value js max (some f.token) (record st { stack = record f { state = state } ∷ below })
        ≡ some st'
      → Step js max st st'
  frame_value-Step state e =
      let step =
        scan_value-Step js max (some f.token)
          (record st { stack = record f { state = state } ∷ below }) st' refl here e in
      record {
        move =
            Move-before max st st' (record f { state = state } ∷ below) (ap open_tokens top)
              (ap parent_of top) (ap length top) step.move;
        forward = step.forward;
        inside = step.inside;
      }

  frame_shift-Step :
      (state : FrameState)
      → record st { i = st.i + 1; stack = record f { state = state } ∷ below } ≡ st'
      → Step js max st st'
  frame_shift-Step state e = subst (Step js max st) e (record {
    move = shift (omega (arith, ap length top)) refl (sym (ap open_tokens top));
    forward = omega arith;
    inside = omega (arith, here);
  })

  scan_separator-Step :
      (c closer : ℕ) (next : FrameState)
      → scan_separator c f below st closer next ≡ some st'
      → Step js max st st'
  unfolding scan_separator
  scan_separator-Step c closer next e = elim (Bool-cases (c == b',')) [
    | inl comma ↦
        let made : scan_separator c f below st closer next
            ≡ some (record st { i = st.i + 1; stack = record f { state = next } ∷ below }) =
          rw comma refl in
        frame_shift-Step next (some_inj (sym made ∙ e))
    | inr other ↦ elim (Bool-cases (c == closer)) [
      | inl close ↦
          let made : scan_separator c f below st closer next ≡ some (close_container f below st) =
            rw (other, close) refl in
          close_container-Step (some_inj (sym made ∙ e))
      | inr bad ↦
          let gone : scan_separator c f below st closer next ≡ none = rw (other, bad) refl in
          absurd (some-ne-none (sym e ∙ gone))
    ]
  ]

  key_added-Step :
      (key : Scan)
      → Step js max st key × (key.stack ≡ st.stack)
      → record key { stack = record f { members = f.members + 1; state = obj_colon } ∷ below } ≡ st'
      → Step js max st st'
  key_added-Step key (step, same) e = subst (Step js max st) e (record {
    move =
        Move-after max st key (record f { members = f.members + 1; state = obj_colon } ∷ below)
          (sym (ap open_tokens (same ∙ top))) step.move;
    forward = step.forward;
    inside = step.inside;
  })

  scan_object_key-Step :
      (c : ℕ) → scan_object_key js max c f below st ≡ some st' → Step js max st st'
  unfolding scan_object_key
  scan_object_key-Step c e = elim (Bool-cases (c == b'}')) [
    | inl close ↦
        let opened : (guard (not (is_obj_key f.state)) >> some (close_container f below st))
            ≡ some st' =
          rw close at e in
        close_container-Step (
          some_inj
            (guard-eq-some (not (is_obj_key f.state)) (some (close_container f below st)) opened).1)
    | inr more ↦
        let after : Scan → Scan = λ key. record key {
          stack = record f { members = f.members + 1; state = obj_colon } ∷ below;
        } in
        let opened : (do
          guard (c == b'"')
          key ← token_string js max (some f.token) st
          guard (key_fits js st.toks f (get_elem? key.toks (length st.toks)))
          some (after key))
            ≡ some st' =
          rw more at e in
        let (_, e1) =
          guard-eq-some (c == b'"')
            (do
              key ← token_string js max (some f.token) st
              guard (key_fits js st.toks f (get_elem? key.toks (length st.toks)))
              some (after key))
            opened in
        let (key, ek, e2) =
          >>=-eq-some (token_string js max (some f.token) st)
            (λ key.
              guard (key_fits js st.toks f (get_elem? key.toks (length st.toks)))
              >> some (after key))
            e1 in
        let (_, e3) =
          guard-eq-some (key_fits js st.toks f (get_elem? key.toks (length st.toks)))
            (some (after key)) e2 in
        key_added-Step key
          (token_string-Step js max st key
            (subst (λ p. token_string js max p st ≡ some key) (sym (ap parent_of top)) ek))
          (some_inj e3)
  ]

  scan_array_element-Step :
      (c : ℕ) → scan_array_element js max c f below st ≡ some st' → Step js max st st'
  unfolding scan_array_element
  scan_array_element-Step c e = elim (Bool-cases (c == b']')) [
    | inl close ↦
        let opened : (guard (not (is_arr_value f.state)) >> some (close_container f below st))
            ≡ some st' =
          rw close at e in
        close_container-Step (
          some_inj
            (guard-eq-some (not (is_arr_value f.state)) (some (close_container f below st))
              opened).1)
    | inr more ↦ frame_value-Step arr_next (rw more at e)
  ]

  scan_state-Step :
      (c : ℕ) (state : FrameState)
      → scan_state js max c f below st state ≡ some st'
      → Step js max st st'
  unfolding scan_state
  scan_state-Step c obj_key_or_end e = scan_object_key-Step c e
  scan_state-Step c obj_key e = scan_object_key-Step c e
  scan_state-Step c obj_colon e = frame_shift-Step obj_value (
      some_inj
        (guard-eq-some (c == b':')
          (some (record st { i = st.i + 1; stack = record f { state = obj_value } ∷ below })) e).1)
  scan_state-Step c obj_value e = frame_value-Step obj_next e
  scan_state-Step c obj_next e = scan_separator-Step c b'}' obj_key e
  scan_state-Step c arr_value_or_end e = scan_array_element-Step c e
  scan_state-Step c arr_value e = scan_array_element-Step c e
  scan_state-Step c arr_next e = scan_separator-Step c b']' arr_value e

Move-done : (max : ℕ) (st v : Scan) → Move max st v → Move max st (finish_value v)
unfolding finish_value
Move-done max st v (add t e a b c d f g room same opens) = add t e a b c d f g room same opens
Move-done max st v (enter t a b c room same opens deep) = enter t a b c room same opens deep
Move-done max st v (leave f opens same) = leave f opens same
Move-done max st v (shift some_frame same opens) = shift some_frame same opens

-- The first value: nothing was seen, and the stack is empty.
scan_root-Step :
    (js : Bytes) (max : ℕ) (seen : Bool) (st st' : Scan)
    → st.stack ≡ []
    → st.i < length js
    → scan_root js max seen st ≡ some st'
    → Step js max st st' × (seen ≡ false)
unfolding scan_root finish_value
scan_root-Step js max seen st st' empty here e =
    let (new, e1) =
      guard-eq-some (not (seen || st.done))
        (do v ← scan_value js max none st; some (finish_value v)) e in
    let (v, ev, e2) = >>=-eq-some (scan_value js max none st) (λ v. some (finish_value v)) e1 in
    let step = scan_value-Step js max none st v (sym (ap parent_of empty)) here ev in
    (
      subst (Step js max st) (some_inj e2) (record {
        move = Move-done max st v step.move;
        forward = step.forward;
        inside = step.inside;
      }),
      ground (arith, new),
    )

-- Each round of the parser is one of the four moves, takes a byte at least, and stays in the text.
pub scan_round-Step :
    (js : Bytes) (max : ℕ) (seen : Bool) (c : ℕ) (stack : List Frame) (st st' : Scan)
    → st.stack ≡ stack
    → st.i < length js
    → scan_round js max seen c stack st ≡ some st'
    → Step js max st st' × ((seen ≡ false) ⊎ (stack ≢ []))
unfolding scan_round scan_frame
scan_round-Step js max seen c [] st st' top here e =
    let (step, new) = scan_root-Step js max seen st st' top here e in (step, inl new)
scan_round-Step js max seen c (f ∷ below) st st' top here e = (
  scan_state-Step js max f below st st' top here c f.state e,
  inr (λ n. absurd (omega (arith, ap length n))),
)
