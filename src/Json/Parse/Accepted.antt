-- ===== src/Json/Parse/Accepted.antt =====
-- What `json_parse` of src/http/json.c accepts is a JSON text.
use mathlib.Core.Path.{subst}
use gargantua.Common.{
  ℕ, zero, suc, ◌+◌, Bool, true, false, ◌&&◌, ◌||◌, Option, none, some, List, [], ◌∷◌, Bytes,
  length, drop, ltb, ◌==◌, ◌>>=◌, >>=-eq-some, guard-eq-some, some_inj, Bool-cases, ◌≡◌, refl, sym,
  ap, arith, inl, inr,
}
use gargantua.Json.{JsonToken, is_space}
use gargantua.Json.Grammar.{
  Blanks, none_left, blank, Value, Element, element, Elements, last_element, more_elements, member,
  Members, last_member, more_members,
}
use gargantua.Json.Lexical.{drop_further}
use gargantua.Json.Parse.{
  FrameState, obj_key_or_end, obj_key, obj_colon, obj_value, obj_next, arr_value_or_end, arr_value,
  arr_next, Frame, Scan, scan_value, scan_frame, finish_value, scan_root, scan_round, Result,
  accepted, refused, spaces_length, parse_answer, after_round, parse_at, parse_loop, json_parse,
  empty_scan, int_max,
}
use gargantua.Json.Parse.Completes.{Rest, Completes, scan_value-Value}
use gargantua.Json.Parse.Rounds.{scan_state-Completes}

-- Blanks in front of what follows in a container.
Elements-blank : (c : ℕ) (s r : Bytes) → is_space c ≡ true → Elements s r → Elements (c ∷ s) r
Elements-blank c s r sp (last_element _ _ (element _ t u _ b v b2)) =
    last_element (c ∷ s) r (element (c ∷ s) t u r (blank c s t sp b) v b2)
Elements-blank c s r sp (more_elements _ z _ (element _ t u _ b v b2) more) =
    more_elements (c ∷ s) z r (element (c ∷ s) t u (b',' ∷ z) (blank c s t sp b) v b2) more

Members-blank : (c : ℕ) (s r : Bytes) → is_space c ≡ true → Members s r → Members (c ∷ s) r
Members-blank c s r sp (last_member _ _ (member _ t u v _ b x b2 e)) =
    last_member (c ∷ s) r (member (c ∷ s) t u v r (blank c s _ sp b) x b2 e)
Members-blank c s r sp (more_members _ z _ (member _ t u v _ b x b2 e) more) =
    more_members (c ∷ s) z r (member (c ∷ s) t u v _ (blank c s _ sp b) x b2 e) more

Rest-blank :
    (state : FrameState) (c : ℕ) (s r : Bytes)
    → is_space c ≡ true
    → Rest state s r
    → Rest state (c ∷ s) r
Rest-blank obj_key_or_end c s r sp (inl b) = inl (blank c s _ sp b)
Rest-blank obj_key_or_end c s r sp (inr m) = inr (Members-blank c s _ sp m)
Rest-blank obj_key c s r sp m = Members-blank c s _ sp m
Rest-blank obj_colon c s r sp (t, b, more) = (t, blank c s _ sp b, more)
Rest-blank obj_value c s r sp (t, u, b, val, more) = (t, u, blank c s _ sp b, val, more)
Rest-blank obj_next c s r sp (inl b) = inl (blank c s _ sp b)
Rest-blank obj_next c s r sp (inr (t, b, more)) = inr (t, blank c s _ sp b, more)
Rest-blank arr_value_or_end c s r sp (inl b) = inl (blank c s _ sp b)
Rest-blank arr_value_or_end c s r sp (inr m) = inr (Elements-blank c s _ sp m)
Rest-blank arr_value c s r sp m = Elements-blank c s _ sp m
Rest-blank arr_next c s r sp (inl b) = inl (blank c s _ sp b)
Rest-blank arr_next c s r sp (inr (t, b, more)) = inr (t, blank c s _ sp b, more)

Completes-blank :
    (stack : List Frame) (c : ℕ) (s : Bytes)
    → is_space c ≡ true
    → Completes stack s
    → Completes stack (c ∷ s)
Completes-blank [] c s sp b = blank c s [] sp b
Completes-blank (f ∷ fs) c s sp (r, more, done) = (r, Rest-blank f.state c s r sp more, done)

drop-spaces :
    (c : ℕ) (s : Bytes)
    → is_space c ≡ true
    → drop (spaces_length (c ∷ s)) (c ∷ s) ≡ drop (spaces_length s) s
unfolding spaces_length
drop-spaces c s sp =
    let one_more : spaces_length (c ∷ s) ≡ suc (spaces_length s) = rw sp (omega arith) in
    ap (λ k. drop k (c ∷ s)) one_more

Completes-spaces :
    (stack : List Frame) (s : Bytes)
    → Completes stack (drop (spaces_length s) s)
    → Completes stack s
unfolding spaces_length
Completes-spaces stack [] h = h
Completes-spaces stack (c ∷ s) h = elim (Bool-cases (is_space c)) [
  | inl sp ↦
      Completes-blank stack c s sp
        (Completes-spaces stack s (subst (Completes stack) (drop-spaces c s sp) h))
  | inr other ↦ simp other at h
]

spaces-Blanks : (s : Bytes) → Blanks s (drop (spaces_length s) s)
unfolding spaces_length
spaces-Blanks [] = none_left []
spaces-Blanks (c ∷ s) = elim (Bool-cases (is_space c)) [
  | inl sp ↦ subst (Blanks (c ∷ s)) (sym (drop-spaces c s sp)) (blank c s _ sp (spaces-Blanks s))
  | inr other ↦ rw other (none_left (c ∷ s))
]

after_round-eq-accepted :
    (next : Scan → Result) (o : Option Scan) (toks : List JsonToken)
    → after_round next o ≡ accepted toks
    → (st : Scan) × (o ≡ some st) × (next st ≡ accepted toks)
unfolding after_round
after_round-eq-accepted next none toks e = absurd cc
after_round-eq-accepted next (some st) toks e = (st, refl, e)

parse_answer-eq-accepted :
    (seen : Bool) (st : Scan) (toks : List JsonToken)
    → parse_answer seen st ≡ accepted toks
    → (seen ≡ true) × (length st.stack ≡ 0)
unfolding parse_answer
parse_answer-eq-accepted seen st toks e =
    elim (Bool-cases (seen && st.done && length st.stack == 0)) [
      | inl fine ↦ (ground (arith, fine), ground (arith, fine))
      | inr bad ↦ let e' : refused ≡ accepted toks = simp bad at e in absurd cc
    ]

Completes-end : (stack : List Frame) → length stack ≡ 0 → Completes stack []
Completes-end [] h = none_left []
Completes-end (f ∷ fs) h = absurd (omega (arith, h))

scan_round-Completes :
    (js : Bytes) (max c : ℕ) (stack : List Frame) (st st' : Scan) (s : Bytes)
    → drop st.i js ≡ c ∷ s
    → scan_round js max true c stack st ≡ some st'
    → Completes st'.stack (drop st'.i js)
    → Completes stack (c ∷ s)
unfolding scan_round scan_root scan_frame
scan_round-Completes js max c [] st st' s here e rest = absurd cc
scan_round-Completes js max c (f ∷ below) st st' s here e rest =
    scan_state-Completes js max f below st st' c s f.state refl here e rest

parse_at-Completes :
    (next : Scan → Result) (js : Bytes) (max : ℕ) (st : Scan) (at : ℕ) (s : Bytes)
    (toks : List JsonToken)
    → ((st' : Scan) → next st' ≡ accepted toks → Completes st'.stack (drop st'.i js))
    → drop at js ≡ s
    → parse_at next js max true st at s ≡ accepted toks
    → Completes st.stack s
unfolding parse_at
parse_at-Completes next js max st at [] toks ih here e =
    Completes-end st.stack (parse_answer-eq-accepted true st toks e).1
parse_at-Completes next js max st at (c ∷ s) toks ih here e =
    let (st', made, e1) = after_round-eq-accepted next _ toks e in
    scan_round-Completes js max c st.stack (record st { i = at }) st' s here made (ih st' e1)

parse_loop-Completes :
    (rounds : ℕ) (js : Bytes) (max : ℕ) (st : Scan) (toks : List JsonToken)
    → parse_loop rounds js max true st ≡ accepted toks
    → Completes st.stack (drop st.i js)
unfolding parse_loop
parse_loop-Completes zero js max st toks e = absurd cc
parse_loop-Completes (suc rounds) js max st toks e =
    let at = st.i + spaces_length (drop st.i js) in
    let rest =
      parse_at-Completes (parse_loop rounds js max true) js max st at (drop at js) toks
        (λ st' e1. parse_loop-Completes rounds js max st' toks e1) refl e in
    Completes-spaces st.stack (drop st.i js) (
      subst (Completes st.stack)
        (drop_further st.i (spaces_length (drop st.i js)) js (drop st.i js) refl) rest)

-- The first round, at the root value.
parse_at-Value :
    (next : Scan → Result) (js : Bytes) (max : ℕ) (at : ℕ) (s : Bytes) (toks : List JsonToken)
    → ((st : Scan) → next st ≡ accepted toks → Completes st.stack (drop st.i js))
    → drop at js ≡ s
    → parse_at next js max false empty_scan at s ≡ accepted toks
    → (u : Bytes) × Value s u × Blanks u []
unfolding parse_at scan_round scan_root finish_value
parse_at-Value next js max at [] toks ih here e =
    let unseen : false ≡ true = (parse_answer-eq-accepted false empty_scan toks e).0 in absurd cc
parse_at-Value next js max at (c ∷ s) toks ih here e =
    let (st', made, e1) = after_round-eq-accepted next _ toks e in
    let (fresh, e2) =
      guard-eq-some true
        (do v ← scan_value js max none (record empty_scan { i = at }); some (finish_value v))
        made in
    let (v, ev, e3) =
      >>=-eq-some (scan_value js max none (record empty_scan { i = at }))
        (λ v. some (finish_value v)) e2 in
    let rest = subst (λ t. Completes t.stack (drop t.i js)) (sym (some_inj e3)) (ih st' e1) in
    scan_value-Value js max none (record empty_scan { i = at }) v c s here ev rest

-- A text that `json_parse` accepts is a JSON text: one value of the grammar of RFC 8259 with blanks around it and
-- nothing else.
pub json_parse-Element :
    (js : Bytes) (max : ℕ) (toks : List JsonToken)
    → json_parse js max ≡ accepted toks
    → Element js []
unfolding json_parse parse_loop
json_parse-Element js max toks e =
    elim (Bool-cases (max == 0 || length js == 0 || ltb int_max (length js))) [
      | inl bad ↦ let e' : refused ≡ accepted toks = simp bad at e in absurd cc
      | inr fine ↦
          let at = 0 + spaces_length js in
          let (u, val, end) =
            parse_at-Value (parse_loop (length js) js max true) js max at (drop at js) toks
              (λ st e1. parse_loop-Completes (length js) js max st toks e1) refl (simp fine at e) in
          let blanks : Blanks js (drop at js) =
            subst (λ k. Blanks js (drop k js)) (omega arith) (spaces-Blanks js) in
          element js (drop at js) u [] blanks val end
    ]
