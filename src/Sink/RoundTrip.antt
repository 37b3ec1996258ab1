-- ===== src/Sink/RoundTrip.antt =====
-- What `sink_add_escaped` of src/runtime/runtime.c writes, and src/http/json.c reads again.
use mathlib.Core.Path.{subst}
use gargantua.Common.{
  ℕ, zero, suc, ◌+◌, ◌-◌, ◌≤◌, ◌<◌, Bool, true, false, Option, none, some, List, [], ◌∷◌, ◌++◌,
  Bytes, length, length-append, take, take-length, drop, lt→leb-false, leb, ◌≡◌, inl, inr, refl,
  sym, ap, ◌∙◌, arith,
}
use gargantua.Json.{str, JsonToken, string_length}
use gargantua.Json.Copy.{copy_loop, json_copy_str}
use gargantua.Json.Parse.{Frame, Scan, token_alloc, token_string}
use gargantua.Json.Parse.Moves.{set_end-snoc}
use gargantua.Paths.{max_text}
use gargantua.Sink.{sink_init, sink_add_escaped}
use gargantua.Sink.Escape.{escape, sink_add_escaped-Added}
use gargantua.Sink.Read.{copy_loop-escape_text}
use gargantua.Sink.Utf8.{Utf8}
use gargantua.Sink.Scan.{string_length-escape}

pub take-all {ℓ} : {A : Type ℓ} (n : ℕ) (xs : List A) → length xs ≤ n → take n xs ≡ xs
take-all zero [] h = refl
take-all zero (x ∷ xs) h = absurd (omega (arith, h))
take-all (suc n) [] h = refl
take-all (suc n) (x ∷ xs) h = ap (◌∷◌ x) (take-all n xs (omega (arith, h)))

-- A sink that was empty has the whole text's escapes.
sink_add_escaped-text :
    (cap : ℕ) (text : Bytes)
    → 0 < cap
    → length text ≤ max_text
    → (sink_add_escaped (sink_init cap) text).overflow ≡ false
    → (sink_add_escaped (sink_init cap) text).text ≡ escape text
unfolding sink_init
sink_add_escaped-text cap text some_room whole fine =
    let added = sink_add_escaped-Added (sink_init cap) text (omega (arith, some_room)) in
    elim added.how [
      | inl (o, o', same) ↦ same ∙ ap escape (take-all max_text text whole)
      | inr (over, why) ↦ absurd (true_is_false (sym over ∙ fine))
    ]
  where
    true_is_false : true ≡ false → ⊥
    true_is_false e = ground (arith, e)

-- A string in the middle of a document.
abbrev pub quoted : Bytes → Bytes → Bytes → Bytes
quoted before written rest = before ++ (b'"' ∷ written ++ (b'"' ∷ rest))

drop-behind : (xs ys : Bytes) (y : ℕ) → drop (length xs + 1) (xs ++ (y ∷ ys)) ≡ ys
drop-behind [] ys y = refl
drop-behind (x ∷ xs) ys y =
    let size : suc (length xs + 1) ≡ suc (length xs) + 1 = omega arith in
    subst (λ n. drop n (x ∷ (xs ++ (y ∷ ys))) ≡ ys) size (drop-behind xs ys y)

-- The token of the string behind `before`.
abbrev pub string_token : Bytes → Bytes → Option ℕ → JsonToken
string_token before written parent = record {
  type = str;
  start = length before + 1;
  end = some (length before + 1 + length written);
  parent = parent;
}

token_string-length :
    (js : Bytes) (max n : ℕ) (parent : Option ℕ) (st : Scan)
    → length st.toks < max
    → string_length (suc (length js)) (drop (st.i + 1) js) ≡ some n
    → token_string js max parent st
      ≡ some (record st {
        i = st.i + 1 + n + 1;
        toks =
            st.toks
            ++ (record { type = str; start = st.i + 1; end = some (st.i + 1 + n); parent = parent }
                ∷ []);
      })
unfolding token_string token_alloc
token_string-length js max n parent st free scanned =
    let room : leb max (length st.toks) ≡ false = lt→leb-false _ _ free in
    rw (room, scanned)
      (ap (λ toks. some (record st { i = st.i + 1 + n + 1; toks = toks }))
        (set_end-snoc st.toks (record { type = str; start = st.i + 1; end = none; parent = parent })
          (st.i + 1 + n)))

json_copy_str-closed :
    (js written : Bytes) (start n room : ℕ) (parent : Option ℕ)
    → take n (drop start js) ≡ written
    → json_copy_str js
        (record { type = str; start = start; end = some (start + n); parent = parent })
        (suc room)
      ≡ copy_loop n true room written
unfolding json_copy_str
json_copy_str-closed js written start n room parent e =
    let size : start + n - start ≡ n = omega arith in rw (size, e) refl

-- The parser in front of a string.
abbrev pub in_front : Bytes → List JsonToken → List Frame → Bool → Scan
in_front before toks stack done = record {
  i = length before;
  toks = toks;
  stack = stack;
  done = done;
}

-- The parser behind it.
abbrev pub behind : Bytes → Bytes → Option ℕ → List JsonToken → List Frame → Bool → Scan
behind before written parent toks stack done = record {
  i = length before + 1 + length written + 1;
  toks = toks ++ (string_token before written parent ∷ []);
  stack = stack;
  done = done;
}

module _ (text before rest : Bytes) (utf8 : Utf8 text) where
  scanned :
      string_length
        (suc (length (quoted before (escape text) rest)))
        (drop (length before + 1) (quoted before (escape text) rest))
      ≡ some (length (escape text))
  scanned = rw (drop-behind before (escape text ++ (b'"' ∷ rest)) b'"') (
      string_length-escape text rest _ utf8 (
        omega (
          arith,
          length-append before (b'"' ∷ escape text ++ (b'"' ∷ rest)),
          length-append (escape text) (b'"' ∷ rest),
        )))

  token_string-escape :
      (parent : Option ℕ) (max : ℕ) (toks : List JsonToken) (stack : List Frame) (done : Bool)
      → length toks < max
      → token_string (quoted before (escape text) rest) max parent (in_front before toks stack done)
        ≡ some (behind before (escape text) parent toks stack done)
  token_string-escape parent max toks stack done free =
      token_string-length (quoted before (escape text) rest) max (length (escape text)) parent
        (in_front before toks stack done) free scanned

  json_copy_str-escape :
      (parent : Option ℕ) (room : ℕ)
      → length text ≤ room
      → json_copy_str
          (quoted before (escape text) rest)
          (string_token before (escape text) parent)
          (suc room)
        ≡ text
  json_copy_str-escape parent room fits =
      json_copy_str-closed (quoted before (escape text) rest) (escape text) (length before + 1)
        (length (escape text)) room parent
        (ap (take (length (escape text))) (drop-behind before (escape text ++ (b'"' ∷ rest)) b'"')
          ∙ take-length (escape text) (b'"' ∷ rest))
      ∙ copy_loop-escape_text text (length (escape text)) room (omega arith) fits

-- Where `text` is well-formed UTF-8 of at most `max_text` bytes, and `sink_add_escaped` writes it into an empty
-- sink without an overflow, what it writes is read again wherever it stands between quotes in a document:
-- with a token left, `token_string` takes the string up to its closing quote as one token, and `json_copy_str`
-- copies the token's text back to `text`, into every array with a byte more than `text` has.
pub token_string-sink_add_escaped :
    (cap : ℕ) (text written before rest : Bytes) (parent : Option ℕ) (max room : ℕ)
    (toks : List JsonToken) (stack : List Frame) (done : Bool)
    → 0 < cap
    → Utf8 text
    → length text ≤ max_text
    → sink_add_escaped (sink_init cap) text ≡ record { cap = cap; text = written; overflow = false }
    → length toks < max
    → length text ≤ room
    → (token_string (quoted before written rest) max parent (in_front before toks stack done)
        ≡ some (behind before written parent toks stack done))
      × (json_copy_str (quoted before written rest) (string_token before written parent) (suc room)
          ≡ text)
token_string-sink_add_escaped cap text written before rest parent max room toks stack done some_room
      utf8 whole sink free fits =
    let same : escape text ≡ written =
      sym (sink_add_escaped-text cap text some_room whole (ap (λ s. s.overflow) sink))
      ∙ ap (λ s. s.text) sink in
    subst
      (λ w.
        (token_string (quoted before w rest) max parent (in_front before toks stack done)
          ≡ some (behind before w parent toks stack done))
        × (json_copy_str (quoted before w rest) (string_token before w parent) (suc room) ≡ text))
      same
      (
        token_string-escape text before rest utf8 parent max toks stack done free,
        json_copy_str-escape text before rest utf8 parent room fits,
      )
