-- ===== src/Json/Parse/Completes.antt =====
-- What completes the open containers of `json_parse` in src/http/json.c, and what a value puts in front of it.
use mathlib.Core.Path.{subst}
use gargantua.Common.{
  ℕ, suc, ◌+◌, not, Option, some, List, [], ◌∷◌, Bytes, length, drop, leb, ◌==◌, ◌>>=◌, >>=-eq-some,
  guard-eq-some, some_inj, Bool-cases, ==_iff, ◌≡◌, ◌⊎◌, refl, sym, ap, ◌∙◌, arith, inl, inr,
}
use gargantua.Json.{JsonType, obj, arr, str, prim, max_depth, string_length, primitive_length}
use gargantua.Json.Grammar.{
  Blanks, Text, Value, primitive, string, empty_object, object, empty_array, array, element,
  Elements, last_element, more_elements, member, Members, last_member, more_members,
}
use gargantua.Json.Lexical.{drop_further, string_length-Text}
use gargantua.Json.Numbers.{primitive_length-Primitive}
use gargantua.Json.Parse.{
  FrameState, obj_key_or_end, obj_key, obj_colon, obj_value, obj_next, arr_value_or_end, arr_value,
  arr_next, Frame, Scan, token_alloc, set_end, token_string, token_primitive, open_container,
  scan_value_at, scan_value,
}

-- What may follow in a container: behind a value, in front of one, behind a key, and in front of the first or of
-- another entry. `r` stands behind the container.
abbrev AfterMember : Bytes → Bytes → Type 0
AfterMember s r = Blanks s (b'}' ∷ r) ⊎ ((t : Bytes) × Blanks s (b',' ∷ t) × Members t (b'}' ∷ r))

abbrev MemberValue : Bytes → Bytes → Type 0
MemberValue s r = (t : Bytes) × (u : Bytes) × Blanks s t × Value t u × AfterMember u r

abbrev AfterKey : Bytes → Bytes → Type 0
AfterKey s r = (t : Bytes) × Blanks s (b':' ∷ t) × MemberValue t r

abbrev AfterElement : Bytes → Bytes → Type 0
AfterElement s r = Blanks s (b']' ∷ r) ⊎ ((t : Bytes) × Blanks s (b',' ∷ t) × Elements t (b']' ∷ r))

abbrev pub Rest : FrameState → Bytes → Bytes → Type 0
Rest obj_key_or_end s r = Blanks s (b'}' ∷ r) ⊎ Members s (b'}' ∷ r)
Rest obj_key s r = Members s (b'}' ∷ r)
Rest obj_colon s r = AfterKey s r
Rest obj_value s r = MemberValue s r
Rest obj_next s r = AfterMember s r
Rest arr_value_or_end s r = Blanks s (b']' ∷ r) ⊎ Elements s (b']' ∷ r)
Rest arr_value s r = Elements s (b']' ∷ r)
Rest arr_next s r = AfterElement s r

-- The bytes complete the open containers, and blanks follow.
abbrev pub Completes : List Frame → Bytes → Type 0
Completes [] s = Blanks s []
Completes (f ∷ fs) s = (r : Bytes) × Rest f.state s r × Completes fs r

pub more_in_object :
    (s t u r : Bytes) → Blanks s (b'"' ∷ t) → Text t u → AfterKey u r → Members s (b'}' ∷ r)
more_in_object s t u r b x (v, colon, (w, y, b1, val, inl b2)) =
    last_member s (b'}' ∷ r)
      (member s t u v (b'}' ∷ r) b x colon (element v w y (b'}' ∷ r) b1 val b2))
more_in_object s t u r b x (v, colon, (w, y, b1, val, inr (z, b2, more))) =
    more_members s z (b'}' ∷ r)
      (member s t u v (b',' ∷ z) b x colon (element v w y (b',' ∷ z) b1 val b2)) more

pub more_in_array :
    (s t u r : Bytes) → Blanks s t → Value t u → AfterElement u r → Elements s (b']' ∷ r)
more_in_array s t u r b val (inl b2) = last_element s (b']' ∷ r) (element s t u (b']' ∷ r) b val b2)
more_in_array s t u r b val (inr (z, b2, more)) =
    more_elements s z (b']' ∷ r) (element s t u (b',' ∷ z) b val b2) more

pub token_string-Text :
    (js : Bytes) (max : ℕ) (parent : Option ℕ) (st st' : Scan) (s : Bytes)
    → drop st.i js ≡ b'"' ∷ s
    → token_string js max parent st ≡ some st'
    → Text s (drop st'.i js) × (st'.stack ≡ st.stack)
unfolding token_string
token_string-Text js max parent st st' s here e =
    let (toks, et, e1) =
      >>=-eq-some (token_alloc st.toks max str (st.i + 1) parent)
        (λ toks. do
          n ← string_length (suc (length js)) (drop (st.i + 1) js)
          some (record st {
            i = st.i + 1 + n + 1;
            toks = set_end toks (length st.toks) (st.i + 1 + n);
          }))
        e in
    let (n, en, e2) =
      >>=-eq-some (string_length (suc (length js)) (drop (st.i + 1) js))
        (λ n.
          some (record st {
            i = st.i + 1 + n + 1;
            toks = set_end toks (length st.toks) (st.i + 1 + n);
          }))
        e1 in
    let behind : drop (st.i + 1) js ≡ s = drop_further st.i 1 js (b'"' ∷ s) here in
    let last : drop (st.i + 1 + n + 1) js ≡ drop (n + 1) s =
      ap (λ k. drop k js) (omega arith) ∙ drop_further (st.i + 1) (n + 1) js s behind in
    subst (λ v. Text s (drop v.i js) × (v.stack ≡ st.stack)) (some_inj e2)
      (
        rw last (
            string_length-Text (suc (length js)) n s
              (ap (string_length (suc (length js))) (sym behind) ∙ en)),
        refl,
      )

token_primitive-Value :
    (js : Bytes) (max : ℕ) (parent : Option ℕ) (st st' : Scan) (s : Bytes)
    → drop st.i js ≡ s
    → token_primitive js max parent st ≡ some st'
    → Value s (drop st'.i js) × (st'.stack ≡ st.stack)
unfolding token_primitive
token_primitive-Value js max parent st st' s here e =
    let (n, en, e1) =
      >>=-eq-some (primitive_length (drop st.i js))
        (λ n. do
          toks ← token_alloc st.toks max prim st.i parent
          some (record st { i = st.i + n; toks = set_end toks (length st.toks) (st.i + n) }))
        e in
    let (toks, et, e2) =
      >>=-eq-some (token_alloc st.toks max prim st.i parent)
        (λ toks. some (record st { i = st.i + n; toks = set_end toks (length st.toks) (st.i + n) }))
        e1 in
    subst (λ v. Value s (drop v.i js) × (v.stack ≡ st.stack)) (some_inj e2)
      (
        rw (drop_further st.i n js s here)
            (primitive s _ (primitive_length-Primitive s n (ap primitive_length (sym here) ∙ en))),
        refl,
      )

open_container-Completes :
    (js : Bytes) (max : ℕ) (parent : Option ℕ) (type : JsonType) (state : FrameState)
    (st st' : Scan) (c : ℕ) (s : Bytes)
    → drop st.i js ≡ c ∷ s
    → open_container max parent type state st ≡ some st'
    → Completes st'.stack (drop st'.i js)
    → (u : Bytes) × Rest state s u × Completes st.stack u
unfolding open_container
open_container-Completes js max parent type state st st' c s here e =
    let (room, e1) =
      guard-eq-some (not (leb max_depth (length st.stack)))
        (do
          toks ← token_alloc st.toks max type st.i parent
          some (record st {
            i = st.i + 1;
            toks = toks;
            stack =
                record { token = length st.toks; type = type; state = state; members = 0 }
                ∷ st.stack;
          }))
        e in
    let (toks, et, e2) =
      >>=-eq-some (token_alloc st.toks max type st.i parent)
        (λ toks. some (record st {
          i = st.i + 1;
          toks = toks;
          stack =
              record { token = length st.toks; type = type; state = state; members = 0 } ∷ st.stack;
        }))
        e1 in
    subst
      (λ v. Completes v.stack (drop v.i js) → (u : Bytes) × Rest state s u × Completes st.stack u)
      (some_inj e2) (rw (drop_further st.i 1 js (c ∷ s) here) (λ h. h))

open_object : (s u : Bytes) → Rest obj_key_or_end s u → Value (b'{' ∷ s) u
open_object s u (inl b) = empty_object s u b
open_object s u (inr m) = object s u m

open_array : (s u : Bytes) → Rest arr_value_or_end s u → Value (b'[' ∷ s) u
open_array s u (inl b) = empty_array s u b
open_array s u (inr m) = array s u m

scan_value_at-Value :
    (js : Bytes) (max : ℕ) (parent : Option ℕ) (st st' : Scan) (c : ℕ) (s : Bytes)
    → drop st.i js ≡ c ∷ s
    → scan_value_at js max parent st (c ∷ s) ≡ some st'
    → Completes st'.stack (drop st'.i js)
    → (u : Bytes) × Value (c ∷ s) u × Completes st.stack u
unfolding scan_value_at
scan_value_at-Value js max parent st st' c s here e rest = elim (Bool-cases (c == b'"')) [
  | inl q ↦
      let c_is : c ≡ b'"' = (==_iff c b'"').0 q in
      let (x, same) = token_string-Text js max parent st st' s (rw c_is at here) (simp q at e) in
      (
        drop st'.i js,
        subst (λ k. Value (k ∷ s) (drop st'.i js)) (sym c_is) (string s _ x),
        subst (λ k. Completes k (drop st'.i js)) same rest,
      )
  | inr nq ↦ elim (Bool-cases (c == b'{')) [
    | inl q ↦
        let (u, inner, outer) =
          open_container-Completes js max parent obj obj_key_or_end st st' c s here
            (simp (nq, q) at e) rest in
        (u, subst (λ k. Value (k ∷ s) u) (sym ((==_iff c b'{').0 q)) (open_object s u inner), outer)
    | inr nb ↦ elim (Bool-cases (c == b'[')) [
      | inl q ↦
          let (u, inner, outer) =
            open_container-Completes js max parent arr arr_value_or_end st st' c s here
              (simp (nq, nb, q) at e) rest in
          (
            u,
            subst (λ k. Value (k ∷ s) u) (sym ((==_iff c b'[').0 q)) (open_array s u inner),
            outer,
          )
      | inr na ↦
          let (x, same) =
            token_primitive-Value js max parent st st' (c ∷ s) here (simp (nq, nb, na) at e) in
          (drop st'.i js, x, subst (λ k. Completes k (drop st'.i js)) same rest)
    ]
  ]
]

pub scan_value-Value :
    (js : Bytes) (max : ℕ) (parent : Option ℕ) (st st' : Scan) (c : ℕ) (s : Bytes)
    → drop st.i js ≡ c ∷ s
    → scan_value js max parent st ≡ some st'
    → Completes st'.stack (drop st'.i js)
    → (u : Bytes) × Value (c ∷ s) u × Completes st.stack u
unfolding scan_value
scan_value-Value js max parent st st' c s here e rest =
    scan_value_at-Value js max parent st st' c s here (rw here at e) rest
