-- ===== src/Json/Parse/Ends.antt =====
-- The loop of `json_parse` in src/http/json.c.
use mathlib.Core.Path.{subst}
use gargantua.Common.{
  ℕ, zero, suc, ◌+◌, ◌-◌, ◌<◌, Bool, true, false, ◌&&◌, ◌||◌, Option, none, some, [], ◌∷◌, Bytes,
  length, drop, length-drop, ltb, ◌==◌, Bool-cases, ◌≡◌, ◌≢◌, refl, ap, arith, inl, inr,
}
use gargantua.Json.Parse.RoundMoves.{scan_round-Step}
use gargantua.Json.Parse.{
  Scan, Result, exhausted, spaces_length, parse_answer, after_round, parse_at, parse_loop, int_max,
  empty_scan, json_parse,
}

abbrev Ended : Result → Type 0
Ended exhausted = ⊥
Ended _ = Unit

parse_answer-Ended : (seen : Bool) (st : Scan) → Ended (parse_answer seen st)
unfolding parse_answer
parse_answer-Ended seen st = elim (Bool-cases (seen && st.done && length st.stack == 0)) [
  | inl fine ↦ rw fine tt
  | inr bad ↦ rw bad tt
]

pub drop-inside : (js : Bytes) (k c : ℕ) (s : Bytes) → drop k js ≡ c ∷ s → k < length js
drop-inside js k c s e = omega (arith, ap length e, length-drop k js)

after_round-Ended :
    (next : Scan → Result) (o : Option Scan)
    → ((st : Scan) → o ≡ some st → Ended (next st))
    → Ended (after_round next o)
unfolding after_round
after_round-Ended next none h = tt
after_round-Ended next (some st) h = h st refl

parse_at-Ended :
    (next : Scan → Result) (js : Bytes) (max : ℕ) (seen : Bool) (st : Scan) (at : ℕ) (s : Bytes)
    → ((st' : Scan) → at < st'.i → at < length js → Ended (next st'))
    → drop at js ≡ s
    → Ended (parse_at next js max seen st at s)
unfolding parse_at
parse_at-Ended next js max seen st at [] ih e = parse_answer-Ended seen st
parse_at-Ended next js max seen st at (c ∷ s) ih e = after_round-Ended next _ (λ st' made.
    let here = drop-inside js at c s e in
    ih st'
      (scan_round-Step js max seen c st.stack (record st { i = at }) st' refl here made).0.forward
      here)

parse_loop-Ended :
    (rounds : ℕ) (js : Bytes) (max : ℕ) (seen : Bool) (st : Scan)
    → length js - st.i < rounds
    → Ended (parse_loop rounds js max seen st)
unfolding parse_loop
parse_loop-Ended zero js max seen st enough = absurd (omega (arith, enough))
parse_loop-Ended (suc rounds) js max seen st enough =
    let at = st.i + spaces_length (drop st.i js) in
    parse_at-Ended (parse_loop rounds js max true) js max seen st at (drop at js)
      (λ st' forward here.
        parse_loop-Ended rounds js max true st' (omega (arith, forward, here, enough)))
      refl

-- `json_parse` ends on every text, with tokens or with -1: each round of its loop takes a byte at
-- least, so that one more rounds than there are bytes are enough.
pub json_parse-ne-exhausted : (js : Bytes) (max : ℕ) → json_parse js max ≢ exhausted
unfolding json_parse
json_parse-ne-exhausted js max e =
    let ends : Ended (json_parse js max) = all_ends in subst Ended e ends
  where
    all_ends : Ended (json_parse js max)
    all_ends = elim (Bool-cases (max == 0 || length js == 0 || ltb int_max (length js))) [
      | inl bad ↦ rw bad tt
      | inr fine ↦
          rw fine (parse_loop-Ended (suc (length js)) js max false empty_scan (omega arith))
    ]
